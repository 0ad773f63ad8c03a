-- ===== src/Accounts/Service/Links.antt =====
-- What ties the maps of the service together: each record stands under its id, and the threads and the
-- last success name accounts that there are.
pub mod Ops
pub mod Run
use chatgpt_codex_proxy.Base.{
  ℕ, ◌≡◌, refl, sym, ap, ◌∙◌, subst, Bool, true, false, Option, none, some, ◌⊎◌, inl, inr, String,
  if◌then◌else◌, arith, Bool-cases, Option-cases, is_some,
}
use chatgpt_codex_proxy.Base.Dict.{Dict, insert, lookup, map_values, values}
use chatgpt_codex_proxy.Base.Dict.Entries.{
  Entries, Entries-insert, Entries-mono, Entries-map_values, has, has-insert, has-insert_self,
  has-map_values,
}
use chatgpt_codex_proxy.Accounts.Types.{Record}
use chatgpt_codex_proxy.Accounts.Service.{
  Service, ThreadAffinity, Env, persist, refresh_record, refresh_all, any_changed, state_of,
}

abbrev pub OwnKey : String → Record → Type 0
OwnKey k r = r.id ≡ k

abbrev pub BoundIn : Dict Record → String → ThreadAffinity → Type 0
BoundIn m k b = has b.account_id m ≡ true

abbrev pub StickyIn : Dict Record → String → Type 0
StickyIn m id = (id ≡ "") ⊎ (has id m ≡ true)

pub record IsLinked (s : Service) : Type 0 where
  pub keyed : Entries OwnKey s.records
  pub bound : Entries (BoundIn s.records) s.thread_affinities
  pub sticky : StickyIn s.records s.sticky_account_id

-- A save keeps the links, whatever the store answers.
pub persist-IsLinked : (env : Env) (s : Service) → IsLinked s → IsLinked (persist env s).0
unfolding persist
persist-IsLinked env s h = elim (Option-cases env.save_error) [
  | inl e ↦ rw (e, persist) (record { keyed = h.keyed; bound = h.bound; sticky = h.sticky })
  | inr (m, e) ↦ rw (e, persist) h
]

-- The links hold over other records that have every account of the old ones.
pub extend-IsLinked :
    (s : Service) (m : Dict Record)
    → IsLinked s
    → Entries OwnKey m
    → ((id : String) → has id s.records ≡ true → has id m ≡ true)
    → IsLinked (record s { records = m })
extend-IsLinked s m h keyed more = record {
  keyed = keyed;
  bound =
      Entries-mono (BoundIn s.records) (BoundIn m) (λ k b. more b.account_id) s.thread_affinities
        h.bound;
  sticky = elim h.sticky [ inl e ↦ inl e | inr e ↦ inr (more s.sticky_account_id e) ];
}

pub insert-IsLinked :
    (s : Service) (id : String) (r : Record)
    → IsLinked s
    → r.id ≡ id
    → IsLinked (record s { records = insert id r s.records })
insert-IsLinked s id r h e =
    extend-IsLinked s (insert id r s.records) h (Entries-insert OwnKey id r s.records e h.keyed)
      (λ j. has-insert id j r s.records)

refresh_record-id : (now : ℕ) (r : Record) → (refresh_record now r).0.id ≡ r.id
unfolding refresh_record
refresh_record-id now r = ground arith

pub refresh_all-IsLinked : (env : Env) (s : Service) → IsLinked s → IsLinked (refresh_all env s).0
unfolding refresh_all
refresh_all-IsLinked env s h = elim (Bool-cases (any_changed env.now (values s.records))) [
  | inl e ↦ rw (e, refresh_all) (persist-IsLinked env fresh refreshed)
  | inr e ↦ rw (e, refresh_all) refreshed
]
  where
    update : Record → Record
    update r = (refresh_record env.now r).0

    fresh : Service
    fresh = record s { records = map_values update s.records }

    refreshed : IsLinked fresh
    refreshed =
        extend-IsLinked s (map_values update s.records) h
          (Entries-map_values OwnKey OwnKey update (λ k r e. refresh_record-id env.now r ∙ e)
            s.records h.keyed)
          (λ id e. has-map_values id update s.records ∙ e)
