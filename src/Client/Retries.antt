-- ===== src/Client/Retries.antt =====
-- The sends of a call end, after a bounded number of them and with bounded waits.
use rustmistmcp.Prelude.{
  ◌⊎◌, sym, ◌∙◌, ℕ, zero, suc, ◌+◌, ◌≤◌, ◌≡◌, ◌≢◌, refl, inl, inr, true, false, not, List, [], ◌∷◌,
  All, length, Option, none, some, Result, ok, err, arith, Result-cases, Bool-cases, leb, ◌==◌,
  subst, ok-inj,
}
use rustmistmcp.Error.{MistError, rate_limited}
use rustmistmcp.Client.{HttpMistClient, HttpRequest, HttpResponse, header_number}
use rustmistmcp.Client.Sends.{Sent, wait_before, send_once, send_loop, send_all}

ok-not-err :
    {e : MistError} {r : HttpResponse} → ◌≡◌ {A = Result MistError HttpResponse} (err e) (ok r) → ⊥
ok-not-err h = cc

not-limited : (r : HttpResponse) → not (r.status == 429) ≡ true → r.status ≢ 429
not-limited r h = ground (arith, h)

is-limited : (r : HttpResponse) → not (r.status == 429) ≡ false → r.status ≡ 429
is-limited r h = ground (arith, h)

all_used : (most used n : ℕ) → leb most used ≡ true → used ≤ most → n ≡ used → n ≡ most
all_used most used n h within same = ground (arith, h)

err-inj : {e f : MistError} → ◌≡◌ {A = Result MistError HttpResponse} (err e) (err f) → e ≡ f
err-inj h = cc

not_spent : (most used : ℕ) → leb most used ≡ false → used + 1 ≤ most
not_spent most used h = ground (arith, h)

module _ (c : HttpMistClient) (request : HttpRequest) where
  -- No wait is longer than the ceiling.
  abbrev pub IsShort : ℕ → Type 0
  IsShort wait = wait ≤ c.max_retry_wait

  wait_before-IsShort :
      (retries_used : ℕ) (header : Option ℕ) → IsShort (wait_before c retries_used header)
  unfolding wait_before
  wait_before-IsShort retries_used none = omega arith
  wait_before-IsShort retries_used (some seconds) = omega arith

  -- A loop ends with an error where its last round fails, or where it is limited and has no retry left.
  abbrev pub IsFailure : List ℕ → MistError → Type 0
  IsFailure waits e =
      (send_once c (length waits) request ≡ err e)
      ⊎ ((r : HttpResponse) × (send_once c (length waits) request ≡ ok r)
          × (r.status ≡ 429)
          × (length waits ≡ c.max_429_retries)
          × (e ≡ rate_limited (header_number r "Retry-After")))

  -- The loop has ended: with at most the retries that are allowed, short waits, no response 429, and no
  -- error but that of its last round.
  pub record IsEnded (sent : Sent) : Type 0 where
    pub bounded : length sent.waits ≤ c.max_429_retries
    pub short : All IsShort sent.waits
    pub last :
        (r : HttpResponse)
        → sent.outcome ≡ ok r
        → (r.status ≢ 429) × (c.send (length sent.waits) request ≡ ok r)
    pub failed : (e : MistError) → sent.outcome ≡ err e → IsFailure sent.waits e

  send_once-sent :
      (n : ℕ) (r : HttpResponse) → send_once c n request ≡ ok r → c.send n request ≡ ok r
  unfolding send_once
  send_once-sent n r h = elim (Result-cases (c.send n request)) [
    | inl (found, e) ↦ ground (arith, e, h)
    | inr (message, e) ↦ absurd (ground (arith, e, h))
  ]

  abbrev pub Ends : Option Sent → Type 0
  Ends found = (sent : Sent) × (found ≡ some sent) × IsEnded sent

  send_loop-Ends :
      (fuel retries_used : ℕ) (waits : List ℕ)
      → c.max_429_retries + 1 ≤ fuel + retries_used
      → retries_used ≤ c.max_429_retries
      → length waits ≡ retries_used
      → All IsShort waits
      → Ends (send_loop c request fuel retries_used waits)
  unfolding send_loop
  send_loop-Ends zero retries_used waits enough within same short = absurd (omega arith)
  send_loop-Ends (suc fuel) retries_used waits enough within same short =
      elim (Result-cases (send_once c retries_used request)) [
        | inr (failure, e) ↦ (
          record { waits = waits; outcome = err failure },
          rw (e, send_loop) refl,
          record {
            bounded = omega arith;
            short = short;
            last = λ r found. absurd (ok-not-err found);
            failed = λ f found. inl (rw same e ∙ found);
          },
        )
        | inl (response, e) ↦ elim (Bool-cases (not (response.status == 429))) [
          | inl other ↦ (
            record { waits = waits; outcome = ok response },
            rw (e, other, send_loop) refl,
            record {
              bounded = omega arith;
              short = short;
              last = λ r found.
                  subst (λ q. (q.status ≢ 429) × (c.send (length waits) request ≡ ok q))
                    (ok-inj found)
                    (
                      not-limited response other,
                      send_once-sent (length waits) response (rw same e),
                    );
              failed = λ f found. absurd (ok-not-err (sym found));
            },
          )
          | inr limited ↦ elim (Bool-cases (leb c.max_429_retries retries_used)) [
            | inl spent ↦ (
              record {
                waits = waits;
                outcome = err (rate_limited (header_number response "Retry-After"));
              },
              rw (e, limited, spent, send_loop) refl,
              record {
                bounded = omega arith;
                short = short;
                last = λ r found. absurd (ok-not-err found);
                failed = λ f found. inr (
                  response,
                  rw same e,
                  is-limited response limited,
                  all_used c.max_429_retries retries_used (length waits) spent within same,
                  err-inj (sym found),
                );
              },
            )
            | inr left ↦
                rw (e, limited, left, send_loop)
                  (send_loop-Ends fuel (retries_used + 1)
                    (wait_before c retries_used (header_number response "Retry-After") ∷ waits)
                    (omega arith) (not_spent c.max_429_retries retries_used left)
                    (omega (arith, same))
                    (
                      wait_before-IsShort retries_used (header_number response "Retry-After"),
                      short,
                    ))
          ]
        ]
      ]

  -- The fuel of a call is enough: the loop ends after at most `max_429_retries` retries, with no wait
  -- longer than `max_retry_wait`. A response that it ends with is that of its last send and has not
  -- the status 429; an error is that of the last round, or says that the last retry was limited too.
  pub send_all-Ends : (sent : Sent) × (send_all c request ≡ some sent) × IsEnded sent
  unfolding send_all
  send_all-Ends = send_loop-Ends (suc c.max_429_retries) 0 [] (omega arith) (omega arith) refl tt
