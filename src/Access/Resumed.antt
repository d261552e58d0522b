-- ===== src/Access/Resumed.antt =====
-- A continuation sends what its cursor holds, and is authorized anew.
use rustmistmcp.Prelude.{
  ◌≡◌, refl, ap, ◌∙◌, ◌↔◌, ◌⊎◌, inl, inr, true, [], Option, none, some, String, Result, ok, err,
  arith, Option-cases,
}
use rustmistmcp.Target.{MistTarget}
use rustmistmcp.Catalog.{MistCapability}
use rustmistmcp.Grant.Valid.{same_target_iff}
use rustmistmcp.Pagination.{MistCursor, MistCursorContext}
use rustmistmcp.Access.{CallerCtx, MistCallError}
use rustmistmcp.Access.Dispatch.{CatalogRead, Handler, dispatch_catalogued_read}
use rustmistmcp.Access.Authorized.{IsAuthorized, only_request, sent_iff}
use rustmistmcp.Access.Continue.{
  InvokeReadArgs, derived_target, read_of, resume, dispatch_resumed, invoke_dispatcher,
  same_maybe_target,
}

same_maybe_target_iff : (a b : Option MistTarget) → (same_maybe_target a b ≡ true) ↔ (a ≡ b)
same_maybe_target_iff none none = ground arith
same_maybe_target_iff none (some t) = ground arith
same_maybe_target_iff (some t) none = ground arith
same_maybe_target_iff (some t) (some u) = ground (arith, same_target_iff t u)

module _ (h : Handler) (decode : String → Option MistCursor) (tool : String)
    (capability : MistCapability) where
  -- What a cursor holds: its context names the read, and its target is that of the read's path.
  pub record IsContinuation (operation_id encoded : String) (read : CatalogRead) : Type 0 where
    pub cursor : MistCursor
    pub context : MistCursorContext
    pub decoded : decode encoded ≡ some cursor
    pub stored : cursor.context ≡ some context
    pub target : derived_target (h.operation_of operation_id) context.path ≡ context.target
    pub same_read :
        read ≡ read_of tool operation_id capability context.path context.query (some cursor)

  resume_context :
      (operation_id encoded : String) (read : CatalogRead) (cursor : MistCursor)
      (context : MistCursorContext)
      → decode encoded ≡ some cursor
      → cursor.context ≡ some context
      → resume h decode tool capability operation_id encoded ≡ ok read
      → (derived_target (h.operation_of operation_id) context.path ≡ context.target)
        × (read ≡ read_of tool operation_id capability context.path context.query (some cursor))
  unfolding resume
  resume_context operation_id encoded read cursor context e1 e2 passed = ground (
    arith,
    e1,
    e2,
    same_maybe_target_iff (derived_target (h.operation_of operation_id) context.path)
        context.target,
  )

  resume_fails :
      (operation_id encoded : String) (read : CatalogRead)
      → decode encoded ≡ none
      → resume h decode tool capability operation_id encoded ≡ ok read
      → ⊥
  unfolding resume
  resume_fails operation_id encoded read e1 passed = ground (arith, e1)

  resume_bare :
      (operation_id encoded : String) (read : CatalogRead) (cursor : MistCursor)
      → decode encoded ≡ some cursor
      → cursor.context ≡ none
      → resume h decode tool capability operation_id encoded ≡ ok read
      → ⊥
  unfolding resume
  resume_bare operation_id encoded read cursor e1 e2 passed = ground (arith, e1, e2)

  resume_sound :
      (operation_id encoded : String) (read : CatalogRead)
      → resume h decode tool capability operation_id encoded ≡ ok read
      → IsContinuation operation_id encoded read
  resume_sound operation_id encoded read passed = elim (Option-cases (decode encoded)) [
    | inl e1 ↦ absurd (resume_fails operation_id encoded read e1 passed)
    | inr (cursor, e1) ↦ elim (Option-cases cursor.context) [
      | inl e2 ↦ absurd (resume_bare operation_id encoded read cursor e1 e2 passed)
      | inr (context, e2) ↦
          let (target, same) =
            resume_context operation_id encoded read cursor context e1 e2 passed in
          record {
            cursor = cursor;
            context = context;
            decoded = e1;
            stored = e2;
            target = target;
            same_read = same;
          }
    ]
  ]

  -- The request that was sent for a cursor is the one that it holds, and it was authorized for the
  -- present caller.
  abbrev pub Continues : Option CallerCtx → InvokeReadArgs → String → Type 0
  Continues caller args encoded =
      (read : CatalogRead) × IsContinuation args.operation_id encoded read
      × IsAuthorized h read caller
      × ((invoke_dispatcher h decode tool capability caller args).sent ≡ only_request read caller)

  resumed_cases :
      (caller : Option CallerCtx) (read : CatalogRead)
      → (IsAuthorized h read caller
          × ((dispatch_catalogued_read h read caller).sent ≡ only_request read caller))
        ⊎ ((dispatch_catalogued_read h read caller).sent ≡ [])
  resumed_cases caller read = elim (sent_iff h read caller) [
    | inl sent ↦ inl sent
    | inr (unauthorized, none_sent) ↦ inr none_sent
  ]

  invoked_sent :
      (caller : Option CallerCtx) (args : InvokeReadArgs) (encoded : String)
      → args.cursor ≡ some encoded
      → ((args.path ≡ none)
          × (args.query ≡ none)
          × (invoke_dispatcher h decode tool capability caller args
              ≡ dispatch_resumed h decode tool capability caller
                  (resume h decode tool capability args.operation_id encoded)))
        ⊎ ((invoke_dispatcher h decode tool capability caller args).sent ≡ [])
  unfolding invoke_dispatcher
  invoked_sent caller args encoded e = ground (arith, e)

  dispatched :
      (caller : Option CallerCtx) (args : InvokeReadArgs) (encoded : String)
      (resumed : Result MistCallError CatalogRead)
      → resume h decode tool capability args.operation_id encoded ≡ resumed
      → ((read : CatalogRead) × IsContinuation args.operation_id encoded read
          × IsAuthorized h read caller
          × ((dispatch_resumed h decode tool capability caller resumed).sent
              ≡ only_request read caller))
        ⊎ ((dispatch_resumed h decode tool capability caller resumed).sent ≡ [])
  unfolding dispatch_resumed
  dispatched caller args encoded (err e) passed = inr refl
  dispatched caller args encoded (ok read) passed = elim (resumed_cases caller read) [
    | inl (authorized, sent) ↦
        inl (read, resume_sound args.operation_id encoded read passed, authorized, sent)
    | inr none_sent ↦ inr none_sent
  ]

  -- A call with a cursor sends nothing, or it has neither a path nor a query of its own, and sends
  -- exactly the read that the cursor holds: the cursor is decoded, its context names the target that
  -- its path has, and the read is authorized for the present caller.
  pub continued_sent :
      (caller : Option CallerCtx) (args : InvokeReadArgs) (encoded : String)
      → args.cursor ≡ some encoded
      → ((args.path ≡ none) × (args.query ≡ none) × Continues caller args encoded)
        ⊎ ((invoke_dispatcher h decode tool capability caller args).sent ≡ [])
  continued_sent caller args encoded e = elim (invoked_sent caller args encoded e) [
    | inr none_sent ↦ inr none_sent
    | inl (no_path, no_query, same) ↦ elim (dispatched caller args encoded _ refl) [
      | inr none_sent ↦ inr (ap (λ r. r.sent) same ∙ none_sent)
      | inl (read, continuation, authorized, sent) ↦
          inl (no_path, no_query, (read, continuation, authorized, ap (λ r. r.sent) same ∙ sent))
    ]
  ]
