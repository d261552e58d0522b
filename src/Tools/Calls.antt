-- ===== src/Tools/Calls.antt =====
-- A named read sends an authorized request with its arguments, or nothing.
use rustmistmcp.Prelude.{[], ◌∷◌, String, Option, none, ◌≡◌}
use rustmistmcp.Prelude.Maps
use rustmistmcp.Json
use rustmistmcp.Json.{Fields}
use rustmistmcp.Request.{MistRequest}
use rustmistmcp.Access.{CallerCtx, call_priority_for}
use rustmistmcp.Access.Dispatch.{CatalogRead, Handler, Reply, request_of}
use rustmistmcp.Access.Authorized.{IsAuthorized}
use rustmistmcp.Tools.{NamedRead}
use rustmistmcp.Tools.Split.{path_value, query_value}

module _ (h : Handler) (n : NamedRead) (args : Fields) (caller : Option CallerCtx) where
  -- The request of a named read: its operation, the arguments that it names as the path, and every
  -- other argument that is not null as the query.
  pub record IsNamedRequest (request : MistRequest) : Type 0 where
    pub operation_id : request.operation_id ≡ n.operation_id
    pub path :
        (name : String)
        → Maps.get name request.path ≡ path_value n.path_names name (Json.get name args)
    pub query :
        (name : String)
        → Maps.get name request.query ≡ query_value n.path_names name (Json.get name args)
    pub no_body : request.json ≡ none
    pub no_cursor : request.cursor ≡ none

  -- It is sent, and only it, for a read of the tool's own class that is authorized.
  abbrev pub SendsNamed : Reply → Type 0
  SendsNamed reply =
      (read : CatalogRead) × (read.tool ≡ n.tool)
      × (read.capability ≡ n.capability)
      × IsAuthorized h read caller
      × IsNamedRequest (request_of read)
      × (reply.sent ≡ (request_of read, call_priority_for caller) ∷ [])
