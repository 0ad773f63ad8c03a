-- ===== src/Models/Routes.antt =====
-- An account has the models that its route was given.
use Prim.Native.String.{◌++◌}
use Prim.Native.String.append
use text.Mathlib.Text.{◌==◌ as str_eq}
use text.Mathlib.TextEquality.{eq_iff}
use text.Mathlib.TextPositions.{eq_refl}
use chatgpt_codex_proxy.Base.{
  ◌≡◌, refl, sym, ap, ◌∙◌, Bool, true, false, ◌&&◌, ◌||◌, not, Option, none, some, ◌⊎◌, inl, inr,
  String, List, [], ◌∷◌, arith, Bool-cases, if_keeps,
}
use chatgpt_codex_proxy.Base.Text.{
  trim_space, trim_left, trim_right, trim_right_idem, cons_unless_blank, is_empty,
}
use chatgpt_codex_proxy.Base.Dict.{Dict, lookup, insert, lookup-insert, values}
use chatgpt_codex_proxy.Base.Dict.Entries.{has}
use chatgpt_codex_proxy.Base.Dict.Sets.{TextSet, copy_into, has-add_all, has-copy_into}
use chatgpt_codex_proxy.Accounts.Types.{Record}
use chatgpt_codex_proxy.Models.{
  Entry, Catalog, ids_of, make_set, make_set_onto, supported_ids, show_ids, has_unrefreshed_routes,
  rebuild_visible, with_route_models, named_entries, apply_route_models, routing_key, by_route,
  supports_locked, supports_with, supports_record,
}

-- Some entry has that id, without outer blanks.
abbrev pub offered : String → List Entry → Bool
offered k [] = false
offered k (e ∷ es) = str_eq (trim_space e.id) k || offered k es

has-make_set_onto :
    (k : String) (out : TextSet) (es : List Entry)
    → is_empty k ≡ false
    → has k (make_set_onto out (ids_of (named_entries es))) ≡ (has k out || offered k es)
unfolding make_set_onto named_entries
has-make_set_onto k out [] h = ground arith
has-make_set_onto k out (e ∷ es) h = elim (Bool-cases (is_empty (trim_space e.id))) [
  | inl t ↦ rw (t, named_entries) (ground (arith, has-make_set_onto k out es h, other t))
  | inr t ↦
      rw (t, named_entries, make_set_onto)
        (ground (
          arith,
          has-make_set_onto k (insert (trim_space e.id) tt out) es h,
          lookup-insert (trim_space e.id) k tt out,
        ))
]
  where
    other : is_empty (trim_space e.id) ≡ true → str_eq (trim_space e.id) k ≡ false
    other t = elim (Bool-cases (str_eq (trim_space e.id) k)) [
      | inl q ↦ absurd (cc (sym t ∙ ap is_empty ((eq_iff (trim_space e.id) k).0 q) ∙ h))
      | inr q ↦ q
    ]

show_ids-support :
    (ids : TextSet) (m : Dict Entry) (c : Catalog) → (show_ids ids m c).support ≡ c.support
show_ids-support [] m c = refl
show_ids-support (_ ∷ _) m c = refl

rebuild_visible-support : (c : Catalog) → (rebuild_visible c).support ≡ c.support
unfolding rebuild_visible
rebuild_visible-support c =
    if_keeps (λ (d : Catalog). d.support ≡ c.support) (has_unrefreshed_routes c)
      (λ _. show_ids-support _ _ c) (λ _. show_ids-support _ _ c)

supported_ids-grows :
    (k : String) (ids : TextSet) (sets : List TextSet)
    → has k ids ≡ true
    → has k (supported_ids ids sets) ≡ true
unfolding supported_ids
supported_ids-grows k ids [] h = h
supported_ids-grows k ids (set ∷ sets) h =
    supported_ids-grows k (copy_into ids set) sets (ground (arith, has-copy_into k ids set))

has-supported_ids :
    (k key : String) (ids set : TextSet) (support : Dict TextSet)
    → lookup key support ≡ some set
    → has k set ≡ true
    → has k (supported_ids ids (values support)) ≡ true
unfolding supported_ids lookup
has-supported_ids k key ids set [] q h = absurd (cc q)
has-supported_ids k key ids set ((j, x) ∷ support) q h = elim (Bool-cases (str_eq j key)) [
  | inl t ↦
      supported_ids-grows k (copy_into ids x) (values support)
        (ground (arith, has-copy_into k ids x, same (rw (t, lookup) at q)))
  | inr t ↦ has-supported_ids k key (copy_into ids x) set support (rw (t, lookup) at q) h
]
  where
    same : Path (Option TextSet) (some x) (some set) → has k x ≡ true
    same e = ap (λ (o : Option TextSet). elim o [ none ↦ false | some u ↦ has k u ]) e ∙ h

show_ids-shown :
    (k : String) (ids : TextSet) (m : Dict Entry) (c : Catalog)
    → has k ids ≡ true
    → has k (show_ids ids m c).visible_ids ≡ true
unfolding lookup
show_ids-shown k [] m c h = absurd (cc h)
show_ids-shown k (_ ∷ _) m c h = h

rebuild_visible-shown :
    (k : String) (c : Catalog)
    → has k (supported_ids [] (values c.support)) ≡ true
    → has k (rebuild_visible c).visible_ids ≡ true
unfolding rebuild_visible
rebuild_visible-shown k c h =
    if_keeps (λ (d : Catalog). has k d.visible_ids ≡ true) (has_unrefreshed_routes c)
      (λ _.
        show_ids-shown k _ _ c (
          ground (arith, has-add_all k (ids_of c.bootstrap) (supported_ids [] (values c.support)))))
      (λ _. show_ids-shown k _ _ c h)

-- A route that the catalog has models of decides by them alone.
supports_locked-route :
    (r : Record) (k : String) (set : TextSet) (c : Catalog)
    → lookup (routing_key r) c.support ≡ some set
    → supports_locked r k c ≡ has k set
unfolding supports_locked lookup
supports_locked-route r k set c q = by_support c.support q
  where
    by_support :
        (support : Dict TextSet)
        → lookup (routing_key r) support ≡ some set
        → supports_with support r k c ≡ has k set
    by_support [] e = absurd (cc e)
    by_support (_ ∷ _) e = ap (λ o. by_route o (routing_key r) k c) q

spelt : String → String
spelt t = String.◌∷◌ "a" (String.◌∷◌ "c" (String.◌∷◌ "c" (String.◌∷◌ "t" (String.◌∷◌ ":" t))))

-- The prefix, character by character.
prefix-spelt : (t : String) → "acct:" ++ t ≡ spelt t
unfolding spelt
prefix-spelt t =
    (λ i. append.cons "a" "cct:" t i)
    ∙ ap (String.◌∷◌ "a") (
        (λ i. append.cons "c" "ct:" t i)
        ∙ ap (String.◌∷◌ "c") (
            (λ i. append.cons "c" "t:" t i)
            ∙ ap (String.◌∷◌ "c") (
                (λ i. append.cons "t" ":" t i)
                ∙ ap (String.◌∷◌ "t")
                    ((λ i. append.cons ":" "" t i) ∙ ap (String.◌∷◌ ":") (λ i. append.nil t i)))))

spelt-trimmed : (t : String) → trim_right t ≡ t → trim_space (spelt t) ≡ spelt t
unfolding spelt trim_space trim_left trim_right cons_unless_blank
spelt-trimmed String.[] h = refl
spelt-trimmed (String.◌∷◌ d t) h = ap (λ u. spelt_onto u) h
  where
    spelt_onto : String → String
    spelt_onto u = cons_unless_blank "a" (
        cons_unless_blank "c"
          (cons_unless_blank "c" (cons_unless_blank "t" (cons_unless_blank ":" u))))

routing_key-trimmed : (r : Record) → trim_space (routing_key r) ≡ routing_key r
unfolding routing_key trim_space
routing_key-trimmed r =
    ap trim_space (prefix-spelt (trim_space r.id))
    ∙ spelt-trimmed (trim_space r.id) (trim_right_idem (trim_left r.id))
    ∙ sym (prefix-spelt (trim_space r.id))

routing_key_nonempty : (r : Record) → is_empty (routing_key r) ≡ false
unfolding routing_key spelt
routing_key_nonempty r = ap is_empty (prefix-spelt (trim_space r.id))

and_implied : (a b : Bool) → (b ≡ true → a ≡ true) → (a && b) ≡ b
and_implied true b h = refl
and_implied false true h = h refl
and_implied false false h = refl

-- After ApplyRouteModels under the key of an account, SupportsRecord of that account and an id is
-- whether the id, without outer blanks, is not empty and is that of one of the entries, without
-- its own, whatever the catalog was.
pub supports_record-apply_route_models :
    (r : Record) (entries : List Entry) (model_id : String) (c : Catalog)
    → supports_record r model_id (apply_route_models (routing_key r) entries c)
      ≡ (not (is_empty (trim_space model_id)) && offered (trim_space model_id) entries)
unfolding supports_record apply_route_models
supports_record-apply_route_models r entries model_id c =
    rw (routing_key-trimmed r, routing_key_nonempty r, apply_route_models)
      (by_id (trim_space model_id) (Bool-cases (is_empty (trim_space model_id))))
  where
    set : TextSet
    set = make_set (ids_of (named_entries entries))

    next : Catalog
    next = rebuild_visible (with_route_models (routing_key r) entries c)

    given : lookup (routing_key r) (with_route_models (routing_key r) entries c).support ≡ some set
    given = ground (
      arith,
      lookup-insert (routing_key r) (routing_key r) set c.support,
      eq_refl (routing_key r),
    )

    stored : lookup (routing_key r) next.support ≡ some set
    stored =
        ap (lookup (routing_key r))
          (rebuild_visible-support (with_route_models (routing_key r) entries c))
        ∙ given

    by_id :
        (k : String)
        → (is_empty k ≡ true) ⊎ (is_empty k ≡ false)
        → (not (is_empty k) && (has k next.visible_ids && supports_locked r k next))
          ≡ (not (is_empty k) && offered k entries)
    by_id k (inl t) = ground arith
    by_id k (inr t) =
        ap (λ b. not (is_empty k) && b)
          (ap (λ b. has k next.visible_ids && b)
              (supports_locked-route r k set next stored ∙ has-make_set_onto k [] entries t)
            ∙ and_implied (has k next.visible_ids) (offered k entries) (λ o.
              rebuild_visible-shown k (with_route_models (routing_key r) entries c) (
                has-supported_ids k (routing_key r) [] set _ given
                  (has-make_set_onto k [] entries t ∙ o))))
