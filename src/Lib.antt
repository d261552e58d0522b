-- ===== src/Lib.antt =====
-- A model of the Mist MCP server in Rust (crates/rustmistmcp-core, crates/rustmistmcp): the path of a
-- catalogued read from the caller's arguments to the answer, the call budget, targets and grants, the
-- discovery of sites, the WAN tools, the lifecycle of a change set, and the HTTP client.
--
-- A read goes through Access.Dispatch (`dispatch_catalogued_read` of server/mod.rs): the operation is
-- looked up (Catalog), its target derived (Target), the caller's grant (Grant) and the configured
-- organizations and sites (Sites) are checked, the request is validated (Request, Pagination), and it
-- is sent with a priority of the call budget (RateLimit). The response is validated and answered.
-- Named tools choose an operation (Tools, Wan) and split their arguments. A WAN object is changed by a
-- change set (ChangeSet): a plan merges a patch onto the object as read (WanWrite, on the values of
-- Json), it is approved, and an apply checks it against the object, claims it, writes it and reads the
-- object again. Requests leave through the client (Client), which charges the budget and retries.
-- Execute operations have a class (ExecuteClass), and the profile is validated at the start (Config).
--
-- Files, by the code that they are about:
--   RateLimit        crates/rustmistmcp-core/src/rate_limit.rs: `try_acquire`, `status`; instants in
--                    nanoseconds are arguments, and the 32-bit counters are natural numbers
--   Target           crates/rustmistmcp-core/src/target.rs: `org`, `site`, `parse`, `subject`
--   Grant            crates/rustmistmcp-core/src/grant.rs: `validate`, `allows_*`
--   Catalog          crates/rustmistmcp-core/src/catalog.rs: the operation record;
--                    Catalog.Derived: the fields that follow from others;
--                    Catalog.Checked: the checks of a path and of the verifications;
--                    Catalog.ToolName: `tool_name`; Catalog.Record: `validate_operation`
--   ExecuteClass     crates/rustmistmcp-core/src/execute_class.rs
--   Error            crates/rustmistmcp-core/src/client.rs: `MistError`
--   Pagination       crates/rustmistmcp-core/src/pagination.rs: `new`, `validate_for`,
--                    `with_request_context`
--   Request          crates/rustmistmcp-core/src/request.rs: bounds; Request.Checks and
--                    Request.Responses: the two `validate` methods
--   Sites            crates/rustmistmcp/src/site_discovery.rs, and `validate_sites` and `replace_sites`
--                    of crates/rustmistmcp/src/server/mod.rs
--   Access           crates/rustmistmcp/src/server/mod.rs: the checks of a read; Access.Dispatch: the
--                    whole of `dispatch_catalogued_read` and `ReadEnvelope::from_response`;
--                    Access.Continue: `invoke_dispatcher` and its cursors
--   Wan, WanWrite    crates/rustmistmcp/src/server/wan.rs and wan_write.rs
--   ChangeSet        crates/rustmistmcp/src/server/change_set.rs and the change-set tools of
--                    crates/rustmistmcp/src/server/mod.rs: ChangeSet.Plan, ChangeSet.Review, and
--                    ChangeSet.Apply with ChangeSet.Write; the protocol of their events is
--                    ChangeSet.Protocol
--   Client           crates/rustmistmcp-core/src/client.rs: `build_url`; Client.Sends: `execute_as`;
--                    Client.Pages: `derive_next_cursor`
--   Tools            crates/rustmistmcp/src/server/mod.rs: the named tools, `named_maps`,
--                    `dispatch_named`
--   Config           crates/rustmistmcp-core/src/config.rs: `validate`
--   Similarity       crates/rustmistmcp/src/server/similarity.rs: `levenshtein_distance`, and the
--                    suffix of `token_similarity_boost`
--   Json, Prelude    serde_json's values, `BTreeMap`, `str` and `Result`, as far as the code uses them
--
-- State is passed: a budget, a site map, a list of the requests sent, the events of the change-set
-- tools. Loops are structural; the page loop of the discovery counts down the 64 pages that the source
-- allows, and the loop of the sends has fuel for `max_429_retries` and one more, which is enough. Maps
-- are association lists, in the order of their keys where a list of the keys is compared. Texts are
-- native strings, `len` counts their UTF-8 bytes.
--
-- Parameters: the judgement of a value against a JSON schema (jsonschema), the lengths and texts that
-- serde_json and hex write, the scope check of mecmcp_auth, the redaction of mecmcp_redact, the bounded
-- conversion of a result by mecmcp, the requests and sends of mecmcp_http, the crate url, the file
-- system, the message for an unknown operation, and the coordinator and the recorder of
-- mecmcp_changeset, whose answers are any function of the events so far. A reader of
-- a site map or of the catalogue takes the client as a parameter, not the model of it. Not modelled: the
-- HTTP transport, the rest of the parsing of the catalogue, the floating-point scores of the
-- suggestions, audit lines, logging, start and command line.
pub mod Prelude
pub mod RateLimit
pub mod Json
pub mod Target
pub mod Catalog
pub mod ChangeSet
pub mod Client
pub mod Config
pub mod Tools
pub mod Similarity
pub mod Grant
pub mod ExecuteClass
pub mod Wan
pub mod WanWrite
pub mod Error
pub mod Pagination
pub mod Request
pub mod Sites
pub mod Access
