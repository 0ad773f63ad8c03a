-- ===== src/Recovery/Answers.antt =====
-- What a wait for recovery promises: an account that can be used by then.
use mathlib.Core.List.{Memᴰ}
use chatgpt_codex_proxy.Base.{
  ℕ, ◌+◌, ◌≡◌, ◌≤◌, ◌<◌, ◌⊎◌, inl, inr, refl, sym, ap, ◌∙◌, subst, Bool, true, not, ◌||◌, Option,
  none, some, List, [], ◌∷◌, ltb, arith, Bool-cases, Option-cases, All, String, if_keeps,
  if◌then◌else◌,
}
use chatgpt_codex_proxy.Base.Dict.{values}
use chatgpt_codex_proxy.Accounts.Types.{Record, clone_record}
use chatgpt_codex_proxy.Accounts.Quota.{is_eligible, record_recovery_at}
use chatgpt_codex_proxy.Accounts.Quota.Recovery.{recovery_sound}
use chatgpt_codex_proxy.Accounts.Service.{
  Service, Env, store_error, Result, ok, err, refresh_all, allows, then_on, persist, any_changed,
}
use chatgpt_codex_proxy.Accounts.Service.Reads.{
  earlier, recovery_of, earliest_among, earliest_availability,
}
use chatgpt_codex_proxy.Recovery.{
  Wait, Recovery, retries, no_recovery, too_late, context_done, refused_by, recovery_panicked,
  sooner, before_deadline, wait_until, after_timer, with_recovery, on_availability,
  wait_for_capacity_recovery,
}

-- An account among some that is allowed and reports that time.
abbrev pub Recovers : Option (Record → Bool) → ℕ → List Record → ℕ → Type 0
Recovers allow now rs t = (r : Record) × Memᴰ r rs × (recovery_of allow now r ≡ some t)

one_of_two :
    (so_far found : Option ℕ) (t : ℕ)
    → earlier so_far found ≡ some t
    → (so_far ≡ some t) ⊎ (found ≡ some t)
one_of_two none none t e = absurd (cc e)
one_of_two none (some x) t e = inr e
one_of_two (some x) none t e = inl e
one_of_two (some x) (some y) t e = elim (Bool-cases (ltb y x)) [
  | inl k ↦ inr (ap (λ (b : Bool). if b then some y else some x) (sym k) ∙ e)
  | inr k ↦ inl (ap (λ (b : Bool). if b then some y else some x) (sym k) ∙ e)
]

earliest_among-Recovers :
    (allow : Option (Record → Bool)) (now : ℕ) (so_far : Option ℕ) (rs : List Record) (t : ℕ)
    → earliest_among allow now so_far rs ≡ some t
    → (so_far ≡ some t) ⊎ Recovers allow now rs t
unfolding earliest_among
earliest_among-Recovers allow now so_far [] t e = inl e
earliest_among-Recovers allow now so_far (r ∷ rs) t e =
    elim (earliest_among-Recovers allow now (earlier so_far (recovery_of allow now r)) rs t e) [
      | inl k ↦ elim (one_of_two so_far (recovery_of allow now r) t k) [
        | inl q ↦ inl q
        | inr q ↦ inr (r, Memᴰ.head refl, q)
      ]
      | inr (x, m, q) ↦ inr (x, Memᴰ.tail m, q)
    ]

recovery_of-parts :
    (allow : Option (Record → Bool)) (now : ℕ) (r : Record) (t : ℕ)
    → recovery_of allow now r ≡ some t
    → (record_recovery_at r now ≡ some t) × (allows allow (clone_record r) ≡ true)
recovery_of-parts allow now r t e = ground arith

earliest_among-none :
    (allow : Option (Record → Bool)) (now : ℕ) (so_far : Option ℕ) (rs : List Record)
    → earliest_among allow now so_far rs ≡ none
    → (so_far ≡ none) × All (λ r. recovery_of allow now r ≡ none) rs
unfolding earliest_among
earliest_among-none allow now so_far [] e = (e, tt)
earliest_among-none allow now so_far (r ∷ rs) e =
    let (k, later) =
      earliest_among-none allow now (earlier so_far (recovery_of allow now r)) rs e in
    let (a, b) = neither_of_two so_far (recovery_of allow now r) k in (a, (b, later))
  where
    neither_of_two : (x y : Option ℕ) → earlier x y ≡ none → (x ≡ none) × (y ≡ none)
    neither_of_two none none k = (refl, refl)
    neither_of_two none (some b) k = absurd (cc k)
    neither_of_two (some a) none k = absurd (cc k)
    neither_of_two (some a) (some b) k = absurd (ground arith)

-- An account of the service that is allowed and eligible at a time.
abbrev pub IsBack : Option (Record → Bool) → Service → ℕ → Type 0
IsBack allow s t =
    (r : Record) × Memᴰ r (values s.records)
    × (allows allow (clone_record r) ≡ true)
    × (is_eligible r t ≡ true)

Recovers-IsBack :
    (allow : Option (Record → Bool)) (now t later : ℕ) (s : Service)
    → Recovers allow now (values s.records) t
    → t ≤ later
    → (now < t) × IsBack allow s later
Recovers-IsBack allow now t later s (r, m, e) h =
    let (at, allowed) = recovery_of-parts allow now r t e in
    let (after, back) = recovery_sound r now t later at h in (after, (r, m, allowed, back))

-- What the wait may answer over the accounts at its end, some time after it.
abbrev pub Honours : Wait → Option (Record → Bool) → ℕ → Service × Recovery → Type 0
Honours w allow delay (s, retries) = IsBack allow s (w.woken_at + delay)
Honours w allow delay (s, no_recovery) =
    All (λ r. recovery_of allow w.asked_in.now r ≡ none) (values s.records)
Honours w allow delay (s, (too_late t)) = (w.now < t) × IsBack allow s (t + delay)
Honours w allow delay (s, context_done) = (w.is_cancelled || w.is_over) ≡ true
Honours w allow delay (s, (refused_by e)) =
    (x : String) × (w.asked_in.save_error ≡ some x) × (e ≡ store_error x)
Honours w allow delay (s, recovery_panicked) = ⊥

refresh_all-answer :
    (env : Env) (s : Service)
    → ((refresh_all env s).1 ≡ ok tt)
      ⊎ ((x : String) × (env.save_error ≡ some x) × ((refresh_all env s).1 ≡ err (store_error x)))
unfolding refresh_all persist
refresh_all-answer env s = elim (Option-cases env.save_error) [
  | inl e ↦ inl (ground arith)
  | inr (x, e) ↦ elim (Bool-cases (any_changed env.now (values s.records))) [
    | inl k ↦ inr (x, e, ground arith)
    | inr k ↦ inl (ground arith)
  ]
]

after_timer-Honours :
    (w : Wait) (allow : Option (Record → Bool)) (delay t : ℕ) (s : Service)
    → w.now < t
    → ((later : ℕ) → t ≤ later → IsBack allow s later)
    → Honours w allow delay (s, after_timer w t)
after_timer-Honours w allow delay t s h back =
    if_keeps (λ a. Honours w allow delay (s, a)) w.is_cancelled (λ c. rw c)
      (λ c.
        if_keeps (λ a. Honours w allow delay (s, a)) w.is_over (λ o. rw (c, o))
          (λ o.
            if_keeps (λ a. Honours w allow delay (s, a)) (ltb w.woken_at t)
              (λ k. (h, back (t + delay) (omega arith)))
              (λ k. back (w.woken_at + delay) (ground arith))))

sooner-least : (limit t : ℕ) → sooner limit t ≤ t
sooner-least limit t = ground arith

wait_until-least : (w : Wait) (t : ℕ) → wait_until w t ≤ t
unfolding wait_until
wait_until-least w t = by_deadline w.deadline (sooner-least (w.started + w.max_wait) t)
  where
    by_deadline : (d : Option ℕ) {x : ℕ} → x ≤ t → before_deadline d x ≤ t
    by_deadline none h = h
    by_deadline (some d) {x} h = ground (arith, sooner-least d x, h)

with_recovery-Honours :
    (w : Wait) (allow : Option (Record → Bool)) (delay t : ℕ) (s : Service)
    → w.now ≤ w.woken_at
    → ((later : ℕ) → t ≤ later → IsBack allow s later)
    → ((later : ℕ) → t ≤ later → IsBack allow (w.meanwhile s) later)
    → Honours w allow delay (with_recovery w t s)
with_recovery-Honours w allow delay t s clock before after =
    if_keeps (Honours w allow delay) (not (ltb w.now (wait_until w t)))
      (λ _.
        if_keeps (λ a. Honours w allow delay (s, a)) (not (ltb w.now t))
          (λ k. before (w.woken_at + delay) (ground arith))
          (λ k. (ground arith, before (t + delay) (omega arith))))
      (λ k.
        after_timer-Honours w allow delay t (w.meanwhile s) (ground (arith, wait_until-least w t))
          after)

Recovers-kept :
    (w : Wait) (allow : Option (Record → Bool)) (now t : ℕ) (s : Service)
    → ((u : Service) (r : Record)
        → Memᴰ r (values u.records)
        → Memᴰ r (values (w.meanwhile u).records))
    → Recovers allow now (values s.records) t
    → Recovers allow now (values (w.meanwhile s).records) t
Recovers-kept w allow now t s others (r, m, e) = (r, others s r m, e)

found-Honours :
    (w : Wait) (allow : Option (Record → Bool)) (delay : ℕ) (s : Service) (x : Option ℕ)
    → w.now ≤ w.woken_at
    → ((u : Service) (r : Record)
        → Memᴰ r (values u.records)
        → Memᴰ r (values (w.meanwhile u).records))
    → earliest_among allow w.asked_in.now none (values s.records) ≡ x
    → Honours w allow delay (on_availability w (s, ok x))
found-Honours w allow delay s none clock others e =
    (earliest_among-none allow w.asked_in.now none (values s.records) e).1
found-Honours w allow delay s (some t) clock others e =
    elim (earliest_among-Recovers allow w.asked_in.now none (values s.records) t e) [
      | inl k ↦ absurd (cc k)
      | inr r ↦
          with_recovery-Honours w allow delay t s clock
            (λ later h. (Recovers-IsBack allow w.asked_in.now t later s r h).1)
            (λ later h.
              (Recovers-IsBack allow w.asked_in.now t later (w.meanwhile s)
                (Recovers-kept w allow w.asked_in.now t s others r) h).1)
    ]

-- The answer of waitForCapacityRecovery is honest about the accounts at the end of the call, if
-- the clock does not go back during the wait and others, who may add accounts and change the rest
-- of the service meanwhile, change and remove no account: where it says to retry, there is an
-- allowed account that is eligible from the end of the wait on; where the recovery is too late,
-- its time lies ahead and there is an allowed account that is eligible from that time on; where
-- there is no recovery, no allowed account reports one; the error of the context comes only from a
-- context that has ended, and that of the store is the one of its refused save.
pub wait_for_capacity_recovery-Honours :
    (w : Wait) (allow : Option (Record → Bool)) (delay : ℕ) (s : Service)
    → w.now ≤ w.woken_at
    → ((u : Service) (r : Record)
        → Memᴰ r (values u.records)
        → Memᴰ r (values (w.meanwhile u).records))
    → Honours w allow delay (wait_for_capacity_recovery w allow s)
unfolding wait_for_capacity_recovery earliest_availability
wait_for_capacity_recovery-Honours w allow delay s clock others =
    elim (refresh_all-answer w.asked_in s) [
      | inl e ↦ subst honest (sym e) (
          found-Honours w allow delay (refresh_all w.asked_in s).0
            (earliest_among allow w.asked_in.now none (values (refresh_all w.asked_in s).0.records))
            clock others refl)
      | inr (x, saved, e) ↦ subst honest (sym e) (x, saved, refl)
    ]
  where
    honest : Result (Unit {0}) → Type 0
    honest a = Honours w allow delay (
        on_availability w (
          then_on (refresh_all w.asked_in s).0 a
            (λ _ u. (u, ok (earliest_among allow w.asked_in.now none (values u.records))))))
