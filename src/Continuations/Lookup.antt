-- ===== src/Continuations/Lookup.antt =====
-- What a continuation finds, along every history of the manager.
use mathlib.Core.List.{Mem}
use mathlib.Core.List.Permᴰ
use text.Mathlib.Text.{◌==◌ as str_eq}
use text.Mathlib.TextEquality.{eq_iff}
use chatgpt_codex_proxy.Base.{
  ◌↔◌, ℕ, ◌≡◌, ◌≤◌, sym, subst, Bool, true, false, not, some, List, [], ◌∷◌, String, if◌then◌else◌,
  keep, arith,
}
use chatgpt_codex_proxy.Base.Int.{ℤ}
use chatgpt_codex_proxy.Base.Text.{trim_space, is_empty}
use chatgpt_codex_proxy.Base.Sort.{sort-perm}
use chatgpt_codex_proxy.Base.Sorted.{IsRefined, Ascends, sort-Ascends}
use chatgpt_codex_proxy.Base.Positions.{Mem-keep, keep-sub, keep-holds}
use chatgpt_codex_proxy.Base.Dict.{values, lookup-insert, lookup-delete}
use chatgpt_codex_proxy.Base.Dict.Keys.{
  IsApart, insert-IsApart, lookup-delete_where, delete_where-IsApart, delete-IsApart,
}
use chatgpt_codex_proxy.Continuations.{
  ContinuationRecord, ContinuationManager, new_continuation_manager, stamped, put_record,
  is_expired, unexpired, read_record, forget_record, get_continuation, sweep, newest_first,
  list_all, list_by_conversation,
}

-- The calls of a manager; of `Get`, each of its two locks, since others may come between them.
pub data Access (I : Type 0) : Type 0 where
  puts : ℕ → ℕ → ContinuationRecord I → Access I
  forgets : String → Access I
  sweeps lists : ℕ → Access I

module _ {I : Type 0} where
  unfoldable pub access : Access I → ContinuationManager I → ContinuationManager I
  access (puts now later r) m = put_record now later r m
  access (forgets id) m = forget_record true id m
  access (sweeps now) m = sweep now m
  access (lists now) m = (list_all now m).0

  unfoldable pub access_all : List (Access I) → ContinuationManager I → ContinuationManager I
  unfolding access
  access_all [] m = m
  access_all (a ∷ as_) m = access_all as_ (access a m)

  access-IsApart :
      (a : Access I) (m : ContinuationManager I) → IsApart m.records → IsApart (access a m).records
  unfolding access put_record forget_record sweep list_all
  access-IsApart (puts now later r) m h = insert-IsApart r.response_id _ m.records h
  access-IsApart (forgets id) m h = delete-IsApart id m.records h
  access-IsApart (sweeps now) m h = delete_where-IsApart (is_expired now) m.records h
  access-IsApart (lists now) m h = delete_where-IsApart (is_expired now) m.records h

  access_all-IsApart :
      (as_ : List (Access I)) (m : ContinuationManager I)
      → IsApart m.records
      → IsApart (access_all as_ m).records
  unfolding access_all
  access_all-IsApart [] m h = h
  access_all-IsApart (a ∷ as_) m h = access_all-IsApart as_ (access a m) (access-IsApart a m h)

  abbrev pub after_all : ℤ → List (Access I) → ContinuationManager I
  after_all ttl as_ = access_all as_ (new_continuation_manager ttl)

  after_all-IsApart : (ttl : ℤ) (as_ : List (Access I)) → IsApart (after_all ttl as_).records
  unfolding new_continuation_manager
  after_all-IsApart ttl as_ = access_all-IsApart as_ (new_continuation_manager ttl) tt

  -- After every sequence of calls on a new manager, Sweep changes nothing that Get finds, for any
  -- id, at the time of the sweep or later.
  pub read_record-sweep :
      (ttl : ℤ) (as_ : List (Access I)) (now later : ℕ) (id : String)
      → now ≤ later
      → read_record later id (sweep now (after_all ttl as_))
        ≡ read_record later id (after_all ttl as_)
  unfolding read_record sweep
  read_record-sweep ttl as_ now later id h = ground (
    arith,
    lookup-delete_where (is_expired now) id (after_all ttl as_).records (after_all-IsApart ttl as_),
  )

  -- After Put, Get finds under its response id the record as Put stamped it, until it expires, and
  -- under every other id what it found before.
  pub read_record-put_record :
      (m : ContinuationManager I) (r : ContinuationRecord I) (now later read : ℕ) (id : String)
      → read_record read id (put_record now later r m) ≡ (
          if str_eq r.response_id id
          then unexpired read (some (stamped now later m.ttl r))
          else read_record read id m)
  unfolding read_record put_record
  read_record-put_record m r now later read id =
      ground (arith, lookup-insert r.response_id id (stamped now later m.ttl r) m.records)

  -- Get, with nobody between its two locks, changes nothing that Get finds, for any id, at its
  -- time or later.
  pub get_continuation-later :
      (m : ContinuationManager I) (now later : ℕ) (id other : String)
      → now ≤ later
      → read_record later other (get_continuation now id m).0 ≡ read_record later other m
  unfolding get_continuation read_record forget_record
  get_continuation-later m now later id other h =
      ground (arith, lookup-delete id other m.records, eq_iff id other)

  fresh : (now : ℕ) (r : ContinuationRecord I) → not (is_expired now r) ≡ true → now ≤ r.expires_at
  fresh now r h = ground arith

  list_all-Mem :
      (now : ℕ) (m : ContinuationManager I) (r : ContinuationRecord I)
      → Mem r (list_all now m).1 ↔ (Mem r (values m.records) × (now ≤ r.expires_at))
  unfolding list_all
  list_all-Mem now m r = (
    λ h.
        let kept = Permᴰ.mem (sort-perm newest_first _) h in
        (
          keep-sub (λ x. not (is_expired now x)) (values m.records) kept,
          fresh now r (keep-holds (λ x. not (is_expired now x)) (values m.records) kept),
        ),
    λ h.
        Permᴰ.mem (Permᴰ.symm (sort-perm newest_first _))
          (Mem-keep (λ x. not (is_expired now x)) (values m.records) h.0 (ground (arith, h.1))),
  )

  abbrev of_key : String → ContinuationRecord I → Bool
  of_key key r = str_eq (trim_space r.conversation_key) (trim_space key)

  list_by_conversation_full :
      (now : ℕ) (key : String) (m : ContinuationManager I)
      → is_empty (trim_space key) ≡ false
      → (list_by_conversation now key m).1 ≡ keep (of_key key) (list_all now m).1
  unfolding list_by_conversation
  list_by_conversation_full now key m e = rw (e, list_by_conversation)

  -- For a key that is not blank, ListByConversation lists exactly the records of the manager that
  -- have not expired and whose key is the same, both without outer blanks.
  pub list_by_conversation_exact :
      (now : ℕ) (key : String) (m : ContinuationManager I) (r : ContinuationRecord I)
      → is_empty (trim_space key) ≡ false
      → Mem r (list_by_conversation now key m).1 ↔ (
          Mem r (values m.records)
          × (now ≤ r.expires_at)
          × (str_eq (trim_space r.conversation_key) (trim_space key) ≡ true))
  list_by_conversation_exact now key m r e = (
    λ h.
        let kept = subst (Mem r) (list_by_conversation_full now key m e) h in
        let (inside, live) = (list_all-Mem now m r).0 (keep-sub (of_key key) _ kept) in
        (inside, live, keep-holds (of_key key) _ kept),
    λ h.
        subst (Mem r) (sym (list_by_conversation_full now key m e))
          (Mem-keep (of_key key) _ ((list_all-Mem now m r).1 (h.0, h.1)) h.2),
  )

  abbrev pub Newer : ContinuationRecord I → ContinuationRecord I → Type 0
  Newer a b = b.created_at ≤ a.created_at

  pub newest_first-IsRefined : IsRefined newest_first Newer
  newest_first-IsRefined = record {
    lower = λ x y h. ground arith;
    upper = λ x y h. ground (arith, h);
    through = λ x y z h k. omega (arith, h, k);
  }

  -- ListAll lists the records from the newest to the oldest by their creation time.
  pub list_all-newest_first :
      (now : ℕ) (m : ContinuationManager I)
      → Ascends newest_first Newer newest_first-IsRefined (list_all now m).1
  unfolding list_all
  list_all-newest_first now m =
      sort-Ascends newest_first Newer newest_first-IsRefined
        (keep (λ r. not (is_expired now r)) (values m.records))
