-- ===== src/Access/Continue.antt =====
-- crates/rustmistmcp/src/server/mod.rs: `invoke_dispatcher`, which starts a read or continues one from
-- an opaque cursor.
use rustmistmcp.Prelude.{
  ℕ, ◌%◌, Bool, true, false, not, ◌&&◌, ◌||◌, List, [], Option, none, some, String, Result, ok, err,
  ◌>>=◌, ◌>>◌, refuse_if, ok_or, all, leb, ltb, ◌==◌, bytes, byte_len, is_empty, if◌then◌else◌,
}
use rustmistmcp.Json.{Value}
use rustmistmcp.Target.{MistTarget}
use rustmistmcp.Catalog.{MistCapability, MistOperation}
use rustmistmcp.Grant.{same_target}
use rustmistmcp.Error.{invalid_cursor}
use rustmistmcp.Pagination.{MistCursor, max_encoded_cursor_bytes}
use rustmistmcp.Access.{CallerCtx, MistCallError, mist, target_for}
use rustmistmcp.Access.Dispatch.{
  CatalogRead, Handler, Reply, fail, refused, dispatch_catalogued_read,
}

pub record InvokeReadArgs : Type 0 where
  pub operation_id : String
  pub path : Option (List (String × String))
  pub query : Option (List (String × Value))
  pub cursor : Option String

-- `u8::is_ascii_hexdigit`
abbrev is_hex : ℕ → Bool
is_hex b = (leb b'0' b && leb b b'9') || (leb b'a' b && leb b b'f') || (leb b'A' b && leb b b'F')

abbrev pub is_malformed : String → Bool
is_malformed encoded =
    is_empty encoded
    || ltb max_encoded_cursor_bytes (byte_len encoded)
    || not (byte_len encoded % 2 == 0)
    || not (all is_hex (bytes encoded))

abbrev pub same_maybe_target : Option MistTarget → Option MistTarget → Bool
same_maybe_target none none = true
same_maybe_target none (some t) = false
same_maybe_target (some t) none = false
same_maybe_target (some t) (some u) = same_target t u

-- `target_for(..).ok()` and `flatten`
abbrev found_target : Result MistCallError (Option MistTarget) → Option MistTarget
found_target (ok target) = target
found_target (err e) = none

-- The target that the path has for the operation, where the catalog has one.
unfoldable pub derived_target : Option MistOperation → List (String × String) → Option MistTarget
derived_target none path = none
derived_target (some operation) path = found_target (target_for operation.target_selectors path)

abbrev pub is_given : {A : Type 0} → Option A → Bool
is_given none = false
is_given (some a) = true

abbrev or_empty : {A : Type 0} → Option (List A) → List A
or_empty none = []
or_empty (some xs) = xs

abbrev pub read_of :
    String
    → String
    → MistCapability
    → List (String × String)
    → List (String × Value)
    → Option MistCursor
    → CatalogRead
read_of tool operation_id capability path query cursor = record {
  tool = tool;
  operation_id = operation_id;
  path = path;
  query = query;
  cursor = cursor;
  capability = capability;
  redact_output = true;
}

-- `decode` is hex::decode and the deserialization of a cursor, by serde_json.
module _ (h : Handler) (decode : String → Option MistCursor) (tool : String)
    (capability : MistCapability) where
  -- The read that an encoded cursor stands for.
  unfoldable pub resume : String → String → Result MistCallError CatalogRead
  resume operation_id encoded = do
    cursor ←
        ok_or (if is_malformed encoded then none else decode encoded)
          (mist (invalid_cursor "opaque cursor is malformed"))
    context ← ok_or cursor.context (mist (invalid_cursor "opaque cursor has no request context"))
    refuse_if
        (not (
          same_maybe_target (derived_target (h.operation_of operation_id) context.path)
            context.target))
        (mist (invalid_cursor "cursor target does not match its request context"))
    ok (read_of tool operation_id capability context.path context.query (some cursor))

  unfoldable pub dispatch_resumed : Option CallerCtx → Result MistCallError CatalogRead → Reply
  dispatch_resumed caller (err e) = refused (fail e)
  dispatch_resumed caller (ok read) = dispatch_catalogued_read h read caller

  unfoldable pub invoke_dispatcher : Option CallerCtx → InvokeReadArgs → Reply
  invoke_dispatcher caller args =
      if is_given args.cursor && (is_given args.path || is_given args.query)
      then refused (fail (mist (invalid_cursor "cursor cannot be combined with path or query")))
      else elim args.cursor [
        | none ↦
            dispatch_catalogued_read h
              (read_of tool args.operation_id capability (or_empty args.path) (or_empty args.query)
                none)
              caller
        | some encoded ↦ dispatch_resumed caller (resume args.operation_id encoded)
      ]
