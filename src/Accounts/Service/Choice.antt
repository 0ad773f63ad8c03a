-- ===== src/Accounts/Service/Choice.antt =====
-- What the choice of an account promises.
use mathlib.Core.List.{Mem, Memᴰ, exists_of_mem-map, mem-cons_of_mem, mem-map_of_mem, not-mem-nil}
use mathlib.Core.Logic.{∥∥₁_map}
use text.Mathlib.Text.{◌==◌ as str_eq}
use chatgpt_codex_proxy.Base.{
  ℕ, ◌≡◌, ◌<◌, refl, sym, ap, ◌∙◌, subst, Bool, true, false, ◌&&◌, Option, some, ◌⊎◌, inl, inr,
  String, List, [], ◌∷◌, map, arith, Bool-cases, Option-cases, length, keep,
}
use chatgpt_codex_proxy.Base.Text.{is_empty}
use chatgpt_codex_proxy.Base.Dict.{Dict, lookup, values}
use chatgpt_codex_proxy.Base.Positions.{keep-sub, keep-holds, Mem-keep}
use chatgpt_codex_proxy.Accounts.Types.{Record, clone_record, clone_record_idem}
use chatgpt_codex_proxy.Accounts.Quota.{is_eligible}
use chatgpt_codex_proxy.Accounts.Rotation.{int_limit}
use chatgpt_codex_proxy.Accounts.Rotation.RoundRobin.{select_round_robin_total}
use chatgpt_codex_proxy.Accounts.Rotation.LeastUsed.{Selects, select_least_used_total}
use chatgpt_codex_proxy.Accounts.Service.{
  Service, Result, ok, err, no_active_accounts, RotationStrategy, least_used, round_robin, sticky,
  sticky_thread, other, allows,
}
use chatgpt_codex_proxy.Accounts.Service.Acquire.{
  usable, preferred_of, candidates_of, choose, choose_among, selected, sticky_of, find_id,
  acquire_matching_locked,
}

-- A copy of an account of the service that is eligible at a time and allowed.
abbrev pub IsChoice : Option (Record → Bool) → ℕ → Service → Record → Type 0
IsChoice allow now s r = ∥ (
    (x : Record) × Mem x (values s.records)
    × (is_eligible x now ≡ true)
    × (allows allow (clone_record x) ≡ true)
    × (r ≡ clone_record x)) ∥₁

-- No account of the service is both.
abbrev pub NoChoice : Option (Record → Bool) → ℕ → Service → Type 0
NoChoice allow now s =
    (x : Record)
    → Mem x (values s.records)
    → (is_eligible x now && allows allow (clone_record x)) ≡ false

lookup-Mem : (k : String) (m : Dict Record) (r : Record) → lookup k m ≡ some r → Mem r (values m)
unfolding lookup
lookup-Mem k [] r e = cc
lookup-Mem k ((j, x) ∷ m) r e = elim (Bool-cases (str_eq j k)) [
  | inl t ↦ here (rw (t, lookup) at e)
  | inr t ↦ mem-cons_of_mem x (lookup-Mem k m r (rw (t, lookup) at e))
]
  where
    here : Path (Option Record) (some x) (some r) → Mem r (x ∷ values m)
    here q = ∣ Memᴰ.head (cc) ∣₁

candidates_sound :
    (allow : Option (Record → Bool)) (now : ℕ) (s : Service) (r : Record)
    → Mem r (candidates_of allow now (values s.records))
    → IsChoice allow now s r
unfolding candidates_of
candidates_sound allow now s r m =
    let vs : List Record = values s.records in
    let kept : Mem r (map clone_record (keep (λ x. is_eligible x now) vs)) =
      keep-sub (allows allow) _ m in
    ∥∥₁_map (exists_of_mem-map kept) (λ p.
      let (x, mx, ex) = p in
      (
        x,
        keep-sub (λ y. is_eligible y now) vs mx,
        keep-holds (λ y. is_eligible y now) vs mx,
        ap (allows allow) ex ∙ keep-holds (allows allow) _ m,
        sym ex,
      ))

and_parts : (a b : Bool) → (a && b) ≡ true → (a ≡ true) × (b ≡ true)
and_parts a b h = ground arith

candidates_complete :
    (allow : Option (Record → Bool)) (now : ℕ) (s : Service)
    → candidates_of allow now (values s.records) ≡ []
    → NoChoice allow now s
unfolding candidates_of
candidates_complete allow now s e x m =
    elim (Bool-cases (is_eligible x now && allows allow (clone_record x))) [
      | inl t ↦ absurd (not-mem-nil (subst (Mem (clone_record x)) e (kept (and_parts _ _ t))))
      | inr t ↦ t
    ]
  where
    vs : List Record
    vs = values s.records

    kept :
        (is_eligible x now ≡ true) × (allows allow (clone_record x) ≡ true)
        → Mem
            (clone_record x)
            (keep (allows allow) (map clone_record (keep (λ y. is_eligible y now) vs)))
    kept p =
        Mem-keep (allows allow) _
          (mem-map_of_mem clone_record (Mem-keep (λ y. is_eligible y now) vs m p.0)) p.1

-- A choice among candidates gives a copy of one of them.
abbrev Chosen : List Record → Result Record → Type 0
Chosen rs t = (r : Record) × (t ≡ ok (clone_record r)) × Mem r rs

selected-Chosen :
    (s : Service) (rs : List Record) (i : ℕ) (t : Option (Record × ℕ))
    → Selects rs i t
    → Chosen rs (selected s t).1
selected-Chosen s rs i t (r, e, m) = (r, ap (λ u. (selected s u).1) e, m)

find_id-Mem : (id : String) (rs : List Record) (r : Record) → find_id id rs ≡ some r → Mem r rs
unfolding find_id
find_id-Mem id [] r e = cc
find_id-Mem id (x ∷ rs) r e = elim (Bool-cases (str_eq x.id id)) [
  | inl t ↦ here (rw (t, find_id) at e)
  | inr t ↦ mem-cons_of_mem x (find_id-Mem id rs r (rw (t, find_id) at e))
]
  where
    here : Path (Option Record) (some x) (some r) → Mem r (x ∷ rs)
    here q = ∣ Memᴰ.head (cc) ∣₁

sticky_of-Mem : (id : String) (rs : List Record) (r : Record) → sticky_of id rs ≡ some r → Mem r rs
sticky_of-Mem id rs r e = elim (Bool-cases (is_empty id)) [
  | inl t ↦ absurd (ground arith)
  | inr t ↦ find_id-Mem id rs r (rw t at e)
]

choose-Chosen :
    (strategy : RotationStrategy) (rs : List Record) (s : Service)
    → 0 < length rs
    → s.round_robin_index < int_limit
    → Chosen rs (choose strategy rs s).1
unfolding choose
choose-Chosen round_robin rs s h k =
    selected-Chosen s rs s.round_robin_index _ (select_round_robin_total rs s.round_robin_index h k)
choose-Chosen sticky rs s h k = elim (Option-cases (sticky_of s.sticky_account_id rs)) [
  | inl e ↦
      rw (e, choose)
        (selected-Chosen s rs s.round_robin_index _
          (select_least_used_total rs s.round_robin_index h k))
  | inr (r, e) ↦ rw (e, choose) (r, refl, sticky_of-Mem s.sticky_account_id rs r e)
]
choose-Chosen least_used rs s h k =
    selected-Chosen s rs s.round_robin_index _ (select_least_used_total rs s.round_robin_index h k)
choose-Chosen sticky_thread rs s h k =
    selected-Chosen s rs s.round_robin_index _ (select_least_used_total rs s.round_robin_index h k)
choose-Chosen (other _) rs s h k =
    selected-Chosen s rs s.round_robin_index _ (select_least_used_total rs s.round_robin_index h k)

-- The answer of a choice: an account that can be used, or the error where there is none.
abbrev pub Answers : Option (Record → Bool) → ℕ → Service → Result Record → Type 0
Answers allow now s t =
    ((r : Record) × (t ≡ ok r) × IsChoice allow now s r)
    ⊎ ((t ≡ err no_active_accounts) × NoChoice allow now s)

choose_among-Answers :
    (allow : Option (Record → Bool)) (now : ℕ) (s : Service) (rs : List Record)
    → candidates_of allow now (values s.records) ≡ rs
    → s.round_robin_index < int_limit
    → Answers allow now s (choose_among rs s).1
unfolding choose_among
choose_among-Answers allow now s [] e k = inr (refl, candidates_complete allow now s e)
choose_among-Answers allow now s (r ∷ rs) e k =
    let (x, t, m) = choose-Chosen s.rotation_strategy (r ∷ rs) s (omega arith) k in
    inl (clone_record x, t, again x (candidates_sound allow now s x (subst (Mem x) (sym e) m)))
  where
    again : (x : Record) → IsChoice allow now s x → IsChoice allow now s (clone_record x)
    again x c =
        ∥∥₁_map c (λ p.
          let (y, m, el, al, q) = p in (y, m, el, al, ap clone_record q ∙ clone_record_idem y))

usable-IsChoice :
    (allow : Option (Record → Bool)) (now : ℕ) (s : Service) (id : String) (r : Record)
    → usable allow now (lookup id s.records) ≡ some r
    → IsChoice allow now s r
usable-IsChoice allow now s id r e = elim (Option-cases (lookup id s.records)) [
  | inl q ↦ absurd (ground arith)
  | inr (x, q) ↦ ∣ (x, lookup-Mem id s.records x q, eligible x q, allowed x q, copied x q) ∣₁
]
  where
    eligible : (x : Record) → lookup id s.records ≡ some x → is_eligible x now ≡ true
    eligible x q = ground arith

    allowed : (x : Record) → lookup id s.records ≡ some x → allows allow (clone_record x) ≡ true
    allowed x q = ground arith

    copied : (x : Record) → lookup id s.records ≡ some x → r ≡ clone_record x
    copied x q = ground arith

-- While the round-robin index is in the range of a non-negative Go int, acquireMatchingLocked,
-- whatever the strategy, the preferred id, the allow function and the order of the map, either
-- returns a copy of an account of the service that is eligible at that time and allowed, or fails
-- with no active accounts, and then no account of the service is both; it never panics.
pub acquire-Answers :
    (preferred_id : String) (allow : Option (Record → Bool)) (now : ℕ) (s : Service)
    → s.round_robin_index < int_limit
    → Answers allow now s (acquire_matching_locked preferred_id allow now s).1
unfolding acquire_matching_locked
acquire-Answers preferred_id allow now s k =
    elim (Option-cases (preferred_of allow now preferred_id s)) [
      | inl e ↦
          rw (e, acquire_matching_locked)
            (choose_among-Answers allow now s (candidates_of allow now (values s.records)) refl k)
      | inr (r, e) ↦
          rw (e, acquire_matching_locked)
            (inl (r, refl, usable-IsChoice allow now s preferred_id r (preferred_usable r e)))
    ]
  where
    preferred_usable :
        (r : Record)
        → preferred_of allow now preferred_id s ≡ some r
        → usable allow now (lookup preferred_id s.records) ≡ some r
    preferred_usable r e = elim (Bool-cases (is_empty preferred_id)) [
      | inl t ↦ absurd (ground arith)
      | inr t ↦ rw t at e
    ]
