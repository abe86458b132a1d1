-- ===== src/Lib.antt =====
-- A verification library for TrustPanel: the routing rules of a fleet, who may see and change
-- them, how an entry node is configured to follow them, how the panel predicts and watches it, what
-- the control plane sends to the agent of a node and what the agent does with it, the links that a
-- client is given, and the sessions of the panel.
--
-- The parts and the files that model them (paths from the repository's root):
-- - Model/Node, Model/Policy, Model/State: internal/core/model/model.go. The records and enums of the
--   panel's state; node_validate, user_validate, policy_validate and the others are the Validate
--   methods, validate is State.Validate; policy_match, legacy_conditions and match_tree are
--   RoutePolicy.Match, LegacyConditions and MatchTree; active_users is State.ActiveUsers.
-- - Model/Settings: the counting accessors and the backup sender of the same file.
-- - Model/Account: internal/core/model/admin.go. Model/Order: internal/core/model/policyorder.go.
-- - Authz: internal/core/authz/authz.go. Read scoping (ScopeStateView), the aggregate of what is
--   hidden, and the write gates.
-- - Render/Netip, Render/Config, Render/Matching, Render/Compiler: internal/core/render/singbox.go,
--   from a rule's conditions to the rule list of an entry node (entryCompiler).
-- - Render/Simulator: internal/core/render/routesim.go, the route tester (Simulate).
-- - Watchdog: internal/core/watchdog/monitor.go, and Watcher.Tick of watchdog.go.
-- - Egress: internal/core/egress/egress.go, over a store that is a parameter.
-- - Agent/Api: internal/core/agentapi/types.go. Agent/Files: internal/core/agent/fileio.go.
--   Agent/Store: internal/core/agent/store.go. Agent/Payload, Agent/Reconcile:
--   internal/core/agent/reconcile.go; apply is Reconciler.apply, with the request's clock as an
--   argument. Agent/Host is what the agent finds on its host, a record of operations and of the laws
--   it relies on; that its units and checkers write no files is an assumption of its own there
--   (LeavesFiles).
-- - Client/Varint, Client/DeepLink: internal/core/clientcfg/clientcfg.go and deeplink.go, the deep
--   link of a client. link_bytes and build_links are buildDeepLinkPayload and the end of Build;
--   parse_deep_link is ParseDeepLink.
-- - Login/Throttle, Login/Sessions: internal/core/panel/auth.go, the lockout after failed logins and
--   SessionManager; the clock and the random tokens are arguments.
-- - Control: internal/core/controller/build.go and firewall.go. build_desired_state is
--   BuildDesiredState, what the panel sends to the agent of a node; Control/Promoted is the state after
--   Promote of internal/core/store/store.go; Artifact and CompiledNode are of
--   internal/core/render/render.go.
-- - Backup: splitBytes of internal/core/backup/deliver.go.
-- - Prelude holds the shared names and lemmas, Scenarios the concrete inputs.
--
-- How the parts meet: the compiler and the tester both take the sorted, enabled rules of the state
-- (sort_policies) and the tree of a rule (match_tree); the compiler writes rules for the active
-- users (active_users). Both are compared through Render/SingBox, a record of what sing-box is
-- documented to do with one connection: which rule matches once the destination is known, what
-- sniffing and resolving bring up of it, and that the first final rule decides.
-- What the control plane builds (Control) is what the agent validates and applies (Agent).
--
-- How code is modelled. A Go string is the list of its bytes; enums of the source that are strings
-- have a constructor for any other text. An error is a value of Result. A map that is only read by
-- key is a list, or a function with a default; what the compiler records in maps and warnings
-- is a log of effects. An instant is a number of nanoseconds. Package strings is written out for
-- ASCII. Package net/netip is a parameter (Netip, and `parses` for validation), as are the geo
-- databases (GeoMatcher) and sing-box. Loops are structural recursion, but for those of
-- ParseDeepLink and splitBytes, which have as many turns as there are bytes; each turn uses up a byte.
--
-- Not modelled: sentences and translations, JSON and configuration text beyond the rule list,
-- durations of the settings, alert delivery, HTTP, SQL, SSH, certificates, the bot and
-- the backup pipeline.
pub mod Prelude
pub mod Model
pub mod Authz
pub mod Render
pub mod Watchdog
pub mod Egress
pub mod Agent
pub mod Client
pub mod Login
pub mod Control
pub mod Backup
pub mod Scenarios
