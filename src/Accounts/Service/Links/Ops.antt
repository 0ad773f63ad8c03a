-- ===== src/Accounts/Service/Links/Ops.antt =====
-- Each elementary change of the service keeps its links.
use text.Mathlib.Text.{◌==◌ as str_eq}
use chatgpt_codex_proxy.Base.{
  ℕ, ◌≡◌, refl, ◌∙◌, Bool, true, false, Option, some, inl, inr, String, if◌then◌else◌, arith,
  Bool-cases, Option-cases, [], ◌∷◌,
}
use chatgpt_codex_proxy.Base.Dict.{Dict, insert, lookup, delete, delete_where}
use chatgpt_codex_proxy.Base.Dict.Entries.{
  Entries, Entries-delete, Entries-delete_where, Entries-map_values, Entries-lookup, has-delete,
}
use chatgpt_codex_proxy.Accounts.Types.{Record}
use chatgpt_codex_proxy.Accounts.Service.{Service, Env}
use chatgpt_codex_proxy.Accounts.Service.Ops.{same_account, find_same, remove, prolong}
use chatgpt_codex_proxy.Accounts.Service.Links.{
  IsLinked, OwnKey, BoundIn, StickyIn, persist-IsLinked, insert-IsLinked,
}
use chatgpt_codex_proxy.Base.Dict.Entries.{Entries-insert, has}
use chatgpt_codex_proxy.Accounts.Service.{persist, RotationStrategy}
use chatgpt_codex_proxy.Accounts.Service.Affinity.{bind, unbind, sweep_thread_affinities}
use chatgpt_codex_proxy.Accounts.Service.Links.{refresh_all-IsLinked}
use chatgpt_codex_proxy.Accounts.Service.Moves.{Keeps}

found_key :
    (s : Service) (id : String) (r : Record) → IsLinked s → lookup id s.records ≡ some r → r.id ≡ id
found_key s id r h e = Entries-lookup OwnKey id s.records h.keyed e

find_same-entry :
    (account_id user_id : String) (m : Dict Record) (k : String) (r : Record)
    → Entries OwnKey m
    → find_same account_id user_id m ≡ some (k, r)
    → r.id ≡ k
unfolding find_same
find_same-entry a u [] k r h e = cc
find_same-entry a u ((j, x) ∷ m) k r h e = elim (Bool-cases (same_account x a u)) [
  | inl t ↦ at (rw (t, find_same) at e)
  | inr t ↦ find_same-entry a u m k r h.1 (rw (t, find_same) at e)
]
  where
    at : Path (Option (String × Record)) (some (j, x)) (some (k, r)) → r.id ≡ k
    at q = ground (arith, h.0)

inserted-IsLinked :
    (env : Env) (id : String) (r : Record) (s : Service)
    → IsLinked s
    → r.id ≡ id
    → IsLinked (persist env (record s { records = insert id r s.records })).0
inserted-IsLinked env id r s h e = persist-IsLinked env _ (insert-IsLinked s id r h e)

remove-IsLinked :
    (env : Env) (id : String) (s : Service) → IsLinked s → IsLinked (remove env id s).0
unfolding remove
remove-IsLinked env id s h = elim (Option-cases (lookup id s.records)) [
  | inl e ↦ rw (e, remove) h
  | inr (r, e) ↦ rw (e, remove) (persist-IsLinked env _ removed)
]
  where
    rest : Dict Record
    rest = delete id s.records

    unstick :
        (b : Bool)
        → str_eq s.sticky_account_id id ≡ b
        → StickyIn rest (if b then "" else s.sticky_account_id)
    unstick true e = inl refl
    unstick false e = elim h.sticky [
      | inl q ↦ inl q
      | inr q ↦ inr (has-delete id s.sticky_account_id s.records e q)
    ]

    removed : IsLinked (record s {
      records = rest;
      sticky_account_id = if str_eq s.sticky_account_id id then "" else s.sticky_account_id;
      thread_affinities = delete_where (λ b. str_eq b.account_id id) s.thread_affinities;
    })
    removed = record {
      keyed = Entries-delete OwnKey id s.records h.keyed;
      bound =
          Entries-delete_where (BoundIn s.records) (BoundIn rest) (λ b. str_eq b.account_id id)
            (λ k b p e. has-delete id b.account_id s.records e p) s.thread_affinities h.bound;
      sticky = unstick (str_eq s.sticky_account_id id) refl;
    }

prolong-IsLinked :
    (s : Service) (id : String) (now : ℕ)
    → IsLinked s
    → IsLinked (record s { thread_affinities = prolong s id now })
prolong-IsLinked s id now h = record {
  keyed = h.keyed;
  bound =
      Entries-map_values (BoundIn s.records) (BoundIn s.records) _ (λ k b p. ground (arith, p))
        s.thread_affinities h.bound;
  sticky = h.sticky;
}

bind-IsLinked :
    (now : ℕ) (key id : String) (s : Service)
    → IsLinked s
    → has id s.records ≡ true
    → IsLinked (bind now key id s)
bind-IsLinked now key id s h e = record {
  keyed = h.keyed;
  bound = Entries-insert (BoundIn s.records) key _ s.thread_affinities e h.bound;
  sticky = h.sticky;
}

unbind-IsLinked : (key : String) (s : Service) → IsLinked s → IsLinked (unbind key s)
unbind-IsLinked key s h = record {
  keyed = h.keyed;
  bound = Entries-delete (BoundIn s.records) key s.thread_affinities h.bound;
  sticky = h.sticky;
}

sweep-IsLinked : (now : ℕ) (s : Service) → IsLinked s → IsLinked (sweep_thread_affinities now s)
unfolding sweep_thread_affinities
sweep-IsLinked now s h = record {
  keyed = h.keyed;
  bound =
      Entries-delete_where (BoundIn s.records) (BoundIn s.records) _ (λ k b p e. p)
        s.thread_affinities h.bound;
  sticky = h.sticky;
}

-- Fields that the links do not speak of.
elsewhere :
    (s : Service)
    → IsLinked s
    → (strategy : RotationStrategy) (ttl index : ℕ)
    → IsLinked (record s {
      rotation_strategy = strategy;
      thread_affinity_ttl = ttl;
      round_robin_index = index;
    })
elsewhere s h strategy ttl index = record { keyed = h.keyed; bound = h.bound; sticky = h.sticky }

pub keeps_links : (env : Env) → Keeps env IsLinked
keeps_links env = record {
  refreshes = refresh_all-IsLinked env;
  saves = λ s id r r' e i h. inserted-IsLinked env id r' s h (i ∙ found_key s id r h e);
  saves_same = λ s a u id r r' e i h.
      inserted-IsLinked env id r' s h (i ∙ find_same-entry a u s.records id r h.keyed e);
  adds = λ s r h. inserted-IsLinked env r.id r s h refl;
  removes = λ s id h. remove-IsLinked env id s h;
  switches = λ s strategy h.
      persist-IsLinked env _ (elsewhere s h strategy s.thread_affinity_ttl s.round_robin_index);
  prolongs = λ s id now h. prolong-IsLinked s id now h;
  binds = λ s now key id e h. bind-IsLinked now key id s h e;
  unbinds = λ s key h. unbind-IsLinked key s h;
  sweeps = λ s now h. sweep-IsLinked now s h;
  sticks = λ s id e h. record { keyed = h.keyed; bound = h.bound; sticky = inr e };
  times = λ s ttl h. elsewhere s h s.rotation_strategy ttl s.round_robin_index;
  turns = λ s index h. elsewhere s h s.rotation_strategy s.thread_affinity_ttl index;
}
