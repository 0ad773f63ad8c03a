-- ===== src/Accounts/Service/Links/Run.antt =====
-- The links hold along every history of the service.
use chatgpt_codex_proxy.Base.{
  if_keeps, subst, ◌||◌, Bool, false, List, [], ◌∷◌, All, inl, ◌≡◌, refl,
}
use chatgpt_codex_proxy.Base.Dict.{Dict, insert}
use chatgpt_codex_proxy.Base.Dict.Entries.{Entries, Entries-insert}
use chatgpt_codex_proxy.Accounts.Types.{Record, clone_record}
use chatgpt_codex_proxy.Accounts.Service.{
  Service, State, Env, RotationStrategy, Result, ok, err, panic,
}
use chatgpt_codex_proxy.Accounts.Service.Load.{
  default_thread_affinity_ttl, normalize_loaded_record, load_records, new_service,
}
use chatgpt_codex_proxy.Accounts.Service.Calls.{Call, run}
use chatgpt_codex_proxy.Accounts.Service.Moves.Step.{run-keeps}
use chatgpt_codex_proxy.Accounts.Service.Links.{OwnKey, IsLinked, persist-IsLinked}
use chatgpt_codex_proxy.Accounts.Service.Links.Ops.{keeps_links}

load_records-keyed :
    (env : Env) (stored : List Record) (m : Dict Record) (changed : Bool)
    → Entries OwnKey m
    → Entries OwnKey (load_records env m changed stored).0
unfolding load_records
load_records-keyed env [] m changed h = h
load_records-keyed env (r ∷ rs) m changed h =
    let n = normalize_loaded_record env (clone_record r) in
    load_records-keyed env rs (insert n.0.id n.0 m) (changed || n.1)
      (Entries-insert OwnKey n.0.id n.0 m refl h)

-- What an answer may be.
abbrev Gives : Result Service → Type 0
Gives t = (s : Service) → t ≡ ok s → IsLinked s

Gives-ok : (t : Service) → IsLinked t → Gives (ok t)
Gives-ok t h s e = subst IsLinked (same e) h
  where
    same : Path (Result Service) (ok t) (ok s) → t ≡ s
    same q = cc

Gives-saved :
    (t : Service) (saved : Result (Unit {0}))
    → IsLinked t
    → Gives (elim saved [ ok _ ↦ ok t | err e ↦ err e | panic ↦ panic ])
Gives-saved t (ok _) h = Gives-ok t h
Gives-saved t (err x) h = λ s e. cc
Gives-saved t panic h = λ s e. cc

fresh_links :
    (m : Dict Record) (strategy : RotationStrategy) (disk : State)
    → Entries OwnKey m
    → IsLinked (record {
      records = m;
      rotation_strategy = strategy;
      round_robin_index = 0;
      sticky_account_id = "";
      thread_affinity_ttl = default_thread_affinity_ttl;
      thread_affinities = [];
      disk = disk;
    })
fresh_links m strategy disk h = record { keyed = h; bound = tt; sticky = inl refl }

-- The service as it starts, where the store loads.
pub new_service-IsLinked :
    (env : Env) (loaded : Result State) (strategy : RotationStrategy)
    → Gives (new_service env loaded strategy)
unfolding new_service
new_service-IsLinked env (err x) strategy = λ s e. cc
new_service-IsLinked env panic strategy = λ s e. cc
new_service-IsLinked env (ok state) strategy =
    if_keeps Gives (load_records env [] false state.records).1
      (λ _. Gives-saved _ _ (persist-IsLinked env _ (fresh_links _ _ _ keyed)))
      (λ _. Gives-ok _ (fresh_links _ _ _ keyed))
  where
    keyed : Entries OwnKey (load_records env [] false state.records).0
    keyed = load_records-keyed env state.records [] false tt

always : (cs : List (Env × Call)) → All (λ c. Unit {0}) cs
always [] = tt
always (c ∷ cs) = (tt, always cs)

-- A service that NewService made from whatever the store loaded is linked after every sequence of
-- calls of its methods, whatever each call meets and whether it fails or not: each record stands
-- under its own id, each thread is bound to an account that there is, and the sticky account id is
-- empty or that of an account that there is.
pub run-IsLinked :
    (env : Env) (loaded : Result State) (strategy : RotationStrategy) (s : Service)
    (cs : List (Env × Call))
    → new_service env loaded strategy ≡ ok s
    → IsLinked (run s cs)
run-IsLinked env loaded strategy s cs e =
    run-keeps IsLinked (λ _. Unit) (λ env _. keeps_links env) s cs (always cs)
      (new_service-IsLinked env loaded strategy s e)
