-- ===== src/Lib.antt =====
-- A proxy that offers the APIs of OpenAI and Anthropic on top of several ChatGPT Codex accounts.
-- This library models, in the order in which a request meets them, the parts that decide which
-- account serves it: the accounts with their quota (internal/accounts) and the slots of each
-- account (internal/accountmanager/capacity.go), and the renewal of its token
-- (internal/accountmanager/manager.go, internal/codexauth/client.go); the catalog of models, which
-- says which account has which model (internal/models); the login of an account on another device
-- (internal/devicelogin), the quota that the upstream reports for it (internal/codex/quota.go) and
-- the wait for an account when all are limited (internal/server/rate_limit_recovery.go); two parts
-- that a turn uses, the continuations of a conversation (internal/conversation/continuation.go), which say
-- which account a response came from, and the names of its tools (internal/turn/tool_names.go);
-- and the two stores that keep account of what runs: the requests, which others watch
-- (internal/activity/store.go), and the calls of the upstream (internal/generation/store.go).
--
-- Base holds what they share: Boolean tests on ℕ (Base.Tests), lists (Base.Lists, Base.Positions),
-- integers (Base.Int), texts (Base.Text), strings as bytes (Base.Bytes), Go maps (Base.Dict) and
-- slices.SortFunc (Base.Sort, Base.Sorted).
--
-- internal/accounts
--   Accounts.Types      account.go, clone.go: Record, QuotaSnapshot, cloneRecord (clone_record)
--   Accounts.Quota      rotation.go from normalizeQuotaSnapshot on, and quota_reset.go
--   Accounts.Rotation   rotation.go up to primaryReset: selectRoundRobin, selectLeastUsed and the
--                       comparisons; its children prove what a choice is
--   Accounts.Metadata   token_metadata.go
--   Accounts.Service    service.go: the state, persistLocked, refreshAllLocked; the methods are in
--                       Load (NewService), Reads, Ops, Affinity and Acquire; Calls is the machine
--                       of their calls; Moves reduces a call to elementary moves, so that Links and Durable
--                       prove an invariant once for every method; Choice and Threads are about the
--                       answers
-- internal/accountmanager/capacity.go
--   Capacity            CapacityCoordinator; Acquire is cut at its select into enter, wake and cancel
--   Capacity.Slots      what holds of the slots of each account
--   Capacity.Steps      each operation keeps it
--   Capacity.Leases     the coordinator with the leases out, and the events that change them
--   Capacity.History    the slots in use are the leases, after every event
--   Capacity.Promises   what callers rely on, along every history
--   Capacity.Queue      the order of the waiters
--
-- internal/accountmanager/manager.go, internal/codexauth/client.go
--   Login               OAuthService.Refresh
--   Manager             ensureReady, refreshLocked, markRefreshFailure
--   Manager.Failure     what a failed refresh does to the account
--   Manager.Steps, Manager.Open, Manager.Ready
--                       what ensureReady hands out
--   Manager.Disabled    an account that others disable during its refresh
--   Manager.Links       what the calls keep of the accounts
--   Manager.Lease       AcquireSpecificLease, which joins the accounts with the slots
--   Manager.Matching    AcquireMatchingLease, a round of its loop for each time round
--   Manager.Usage       Refresh and GetUsage
--
-- internal/models
--   Models              catalog.go, entry.go: the catalog and its methods
--   Models.Normalize    normalize.go, and FirstNonEmpty of internal/jsonutil/jsonutil.go
--   Models.Entries, Models.Visible, Models.History
--                       what the catalog shows, along every history of its changes
--   Models.Default, Models.Routes
--                       what an account has
-- internal/turn/tool_names.go
--   ToolNames           NewToolNames, Shorten, RestoreToolName, UpstreamToolName and
--                       MergeToolNameAliases
--   ToolNames.Suffix    the search for a free name ends
--   ToolNames.Injective what the maps of a mapping say of each other
--   ToolNames.Sequence  sequences of calls of Shorten
-- internal/conversation/continuation.go
--   Continuations       the manager; Get is read_record and forget_record, one for each lock
--   Continuations.Lookup what its calls find
-- internal/activity/store.go
--   Activity            Store: its records, its subscribers and the events between them
--   Activity.Records    a record: sanitizeRecordUpdate, safeFailure and what Finish writes
--   Activity.Calls      the machine of the calls, and of what subscribers take from their channels
--   Activity.Told       the requests of a snapshot as the records of the store
--   Activity.Moves      reduces a call to elementary moves, so that Watched and Times prove an
--                       invariant once for each move
--   Activity.Swept, Activity.Life, Activity.Advance
--                       what a call can do to one record, as a step relation
-- internal/generation/store.go
--   Generation          Start, Finish, Get and Query, with the array that its filter overwrites
--   Generation.Redact   Sanitize, over JSON values
--   Generation.Paging, Generation.Lost, Generation.Bounds
--                       the pages, the filter and the lengths
-- internal/server/rate_limit_recovery.go
--   Recovery            waitForCapacityRecovery; Wait is what its select, its timer and the clock do
--   Recovery.Answers    what its answer says of the accounts
-- internal/devicelogin
--   DeviceLogin         Start, Get, setStatus, DeleteExpired, Close
--   DeviceLogin.Tick    the case of the ticker in poll
--   DeviceLogin.Polls   the machine of the calls and of the goroutines of poll, each of which loops,
--                       or is about to call setStatus and end
--   DeviceLogin.Polls.Written, DeviceLogin.Polls.Phases, DeviceLogin.Polls.Kept,
--   DeviceLogin.Polls.Shown
--                       what its steps keep, and what follows for Get and Close
-- internal/codex/quota.go, internal/codex/usage.go
--   CodexQuota          ParseQuotaFromHeaders and QuotaFromUsageResponse
--   CodexQuota.Blocking which quota blocks its account
--
-- How the state is read. Each method of the service and each critical section of the coordinator
-- holds a mutex from start to end, so it is a function from state to state, and an interleaving of
-- goroutines is a sequence of such functions. A method that fails returns the state too: nothing
-- is rolled back. A runtime panic is a result (panic, or none where an Option of a choice is
-- returned). What a call meets outside is in Env: the time that it reads once, the answer of the
-- store to a Save, the next account id and the decoding of a token's claims. The store keeps the
-- state that it accepted last (disk).
--
-- Numbers. A time is a number of nanoseconds since Go's zero time, so IsZero is the test for 0 and
-- UTC() changes nothing; times do not overflow. A percentage is a finite float64 times 2 ^ 1074,
-- an integer, since it is only compared; NaN is left out. The round-robin index is the 64 bits of
-- a Go int and wraps around (% 2 ^ 64); a negative one panics in the index expression. A map is an
-- association list whose order is that in which `range` visits it; theorems hold for every list,
-- so for every order. Records in the map are never nil. slices.SortFunc is Go's insertion sort,
-- which it runs on up to 12 elements; sorting by id gives the same with any algorithm. Where the
-- code would follow a nil pointer to a shared window, the model reads 0. The search for a free
-- tool name has fuel for one suffix more than there are used names, of which one is free; the
-- digits of a number n have fuel n, more than it has digits; trimming has fuel for each byte,
-- since it takes one or more at each step. All other recursion is structural.
--
-- A run of ensureReady (Manager.Visit) meets a clock and an answer of the store at each of its
-- calls, and others may change the accounts in any way before each of them: before the first read,
-- before the lock of the account, while the login service answers, and between UpdateAuth and the last
-- read. A run of AcquireSpecificLease (Manager.Lease.Errand) adds what others do before it asks for a
-- slot, while it waits and once it has one; GetUsage (Manager.Usage.Inquiry) what they do during its
-- request and before its last read. The loop of AcquireMatchingLease runs over a list of rounds
-- (Manager.Matching.Round), each with what others do before the call takes a slot, while it waits and
-- between its reads; where the list is at its end, the answer is none. From the slot on, ensureReady
-- reads and writes no slot, so what others do to the slots during it comes before or after it.
-- A lifetime of a token that overflows 64 bits of nanoseconds is left out.
--
-- A subscription of the activity whose channel is full is closed and forgotten, with what its
-- channel still holds. It keeps the requests of the snapshot that its owner was given (base). The loop of a sweep visits the entries of the map as it was at its start. A
-- text of a record is a sequence of characters, so it is valid UTF-8. The filter of Query is the loop
-- on the shared array, by indices from the last; a client that follows its cursors asks for one page
-- more than there are records. The sum of an offset and a limit does not overflow.
--
-- A goroutine of the device login is an entry of a list (polls); a step names it by its place there,
-- and what the login service answers comes with the step. What others do to the accounts during
-- a wait for recovery is given with it (Recovery.Wait). The context of a wait or of a goroutine is
-- what the call says of it, or is done at the deadline of the login and once the
-- service is closed. An int of minutes times 60 wraps around (% 2 ^ 64).
--
-- Not modelled: HTTP, files and the text of JSON; the token decoding, strings.EqualFold,
-- strings.ToLower, the parsing of numbers by strconv, the layout of a time and the %d of fmt are
-- parameters. Of the activity, ListDates, QueryLogs and PruneLogs are left out, of the generations
-- Dates and Prune, of the models the fetcher and the cache file, of codex all but the quota of headers
-- and of the usage endpoint, of the server all but the wait for recovery; so are the other packages
-- (openai, anthropic, and the rest of conversation and turn).
pub mod Base
pub mod Accounts
pub mod Capacity
pub mod ToolNames
pub mod Continuations
pub mod Login
pub mod Manager
pub mod Models
pub mod Activity
pub mod Generation
pub mod Recovery
pub mod DeviceLogin
pub mod CodexQuota
