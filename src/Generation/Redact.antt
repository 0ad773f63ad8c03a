-- ===== src/Generation/Redact.antt =====
-- internal/generation/store.go, Sanitize: a payload without what authorises.
use text.Mathlib.Text.{◌==◌ as str_eq}
use text.Mathlib.TextEquality.{eq_iff}
use chatgpt_codex_proxy.Base.{
  ℕ, zero, suc, ◌≡◌, refl, sym, ap, ◌∙◌, All, ◌++◌, Bool, true, false, ◌||◌, Option, none, some,
  String, List, [], ◌∷◌, if◌then◌else◌, Bool-cases, inl, inr, arith,
}
use chatgpt_codex_proxy.Base.Text.{trim_space}

-- A decoded JSON value; a number keeps its spelling. Arrays and objects are lists of their own.
mutual
  pub data Json : Type 0 where
    null : Json
    boolean : Bool → Json
    number : String → Json
    str : String → Json
    array : Items → Json
    object : Members → Json

  pub data Items : Type 0 where
    no_items : Items
    item : Json → Items → Items

  pub data Members : Type 0 where
    no_members : Members
    member : String → Json → Members → Members

abbrev pub is_among : String → List String → Bool
is_among k [] = false
is_among k (j ∷ js) = str_eq k j || is_among k js

abbrev pub secret_names : List String
secret_names =
    "authorization" ∷ "cookie" ∷ "set-cookie" ∷ "headers" ∷ "proxy-authorization" ∷ "access_token"
    ∷ "refresh_token" ∷ "token" ∷ "api_key" ∷ "x-api-key" ∷ []

-- `strings.ToLower`, which follows Unicode's tables, is a parameter.
unfoldable pub is_secret : (String → String) → String → Bool
unfolding trim_space
is_secret lower key = is_among (lower (trim_space key)) secret_names

abbrev pub redacted : Json
redacted = str "<redacted>"

-- `sanitize`, on what json.Unmarshal made.
unfoldable mutual
  unfolding is_secret

  pub sanitize : (String → String) → Json → Json
  sanitize lower null = null
  sanitize lower (boolean b) = boolean b
  sanitize lower (number n) = number n
  sanitize lower (str t) = str t
  sanitize lower (array xs) = array (sanitize_items lower xs)
  sanitize lower (object ms) = object (sanitize_members lower ms)

  pub sanitize_items : (String → String) → Items → Items
  sanitize_items lower no_items = no_items
  sanitize_items lower (item x xs) = item (sanitize lower x) (sanitize_items lower xs)

  pub sanitize_members : (String → String) → Members → Members
  sanitize_members lower no_members = no_members
  sanitize_members lower (member k v ms) =
      let inner = sanitize lower v in
      member k (if is_secret lower k then redacted else inner) (sanitize_members lower ms)

-- How the payload comes through json.Marshal and json.Unmarshal.
pub data Decoded : Type 0 where
  unserializable not_json : Decoded
  decoded : Json → Decoded

abbrev pub omitted : String → Json
omitted why = object (member "_omitted" (str why) no_members)

unfoldable pub sanitize_payload : (String → String) → Decoded → Json
unfolding sanitize
sanitize_payload lower unserializable = omitted "unserializable"
sanitize_payload lower not_json = omitted "non-json"
sanitize_payload lower (decoded v) = sanitize lower v

-- A way into a value: a key of an object or an index of an array.
pub data Way : Type 0 where
  key : String → Way
  index : ℕ → Way

abbrev pub find_member : String → Members → Option Json
find_member j no_members = none
find_member j (member k v ms) = let rest = find_member j ms in if str_eq k j then some v else rest

abbrev pub nth_item : ℕ → Items → Option Json
nth_item n no_items = none
nth_item zero (item x xs) = some x
nth_item (suc n) (item x xs) = nth_item n xs

abbrev pub one_in : Way → Json → Option Json
one_in (key k) (object ms) = find_member k ms
one_in (index n) (array xs) = nth_item n xs
one_in _ _ = none

abbrev pub and_on : Option Json → (Json → Option Json) → Option Json
and_on none f = none
and_on (some v) f = f v

abbrev pub at : List Way → Json → Option Json
at [] v = some v
at (w ∷ ws) v = and_on (one_in w v) (at ws)

abbrev pub cleaned : (String → String) → Option Json → Option Json
cleaned lower none = none
cleaned lower (some v) = some (sanitize lower v)

abbrev pub censored : Option Json → Option Json
censored none = none
censored (some v) = some redacted

-- Whether a way goes through a secret key.
abbrev pub hides : (String → String) → Way → Bool
hides lower (key k) = is_secret lower k
hides lower (index n) = false

find_member-sanitize :
    (lower : String → String) (j : String) (ms : Members)
    → find_member j (sanitize_members lower ms) ≡ (
        if is_secret lower j then censored (find_member j ms) else cleaned lower (find_member j ms))
unfolding sanitize
find_member-sanitize lower j no_members = ground arith
find_member-sanitize lower j (member k v ms) = elim (Bool-cases (str_eq k j)) [
  | inl t ↦
      rw (t, find_member)
        (ap (λ i. some (if is_secret lower i then redacted else sanitize lower v))
            ((eq_iff k j).0 t)
          ∙ parted (is_secret lower j))
  | inr t ↦ rw (t, find_member) (find_member-sanitize lower j ms)
]
  where
    parted :
        (b : Bool)
        → Path
            (Option Json)
            (some (if b then redacted else sanitize lower v))
            (if b then some redacted else some (sanitize lower v))
    parted true = refl
    parted false = refl

nth_item-sanitize :
    (lower : String → String) (n : ℕ) (xs : Items)
    → nth_item n (sanitize_items lower xs) ≡ cleaned lower (nth_item n xs)
unfolding sanitize
nth_item-sanitize lower n no_items = refl
nth_item-sanitize lower zero (item x xs) = refl
nth_item-sanitize lower (suc n) (item x xs) = nth_item-sanitize lower n xs

nowhere : (b : Bool) → Path (Option Json) none (if b then none else none)
nowhere true = refl
nowhere false = refl

one_in-sanitize :
    (lower : String → String) (w : Way) (v : Json)
    → one_in w (sanitize lower v)
      ≡ (if hides lower w then censored (one_in w v) else cleaned lower (one_in w v))
unfolding sanitize
one_in-sanitize lower (key k) null = nowhere (is_secret lower k)
one_in-sanitize lower (key k) (boolean b) = nowhere (is_secret lower k)
one_in-sanitize lower (key k) (number s) = nowhere (is_secret lower k)
one_in-sanitize lower (key k) (str t) = nowhere (is_secret lower k)
one_in-sanitize lower (key k) (array xs) = nowhere (is_secret lower k)
one_in-sanitize lower (key k) (object ms) = find_member-sanitize lower k ms
one_in-sanitize lower (index n) null = refl
one_in-sanitize lower (index n) (boolean b) = refl
one_in-sanitize lower (index n) (number s) = refl
one_in-sanitize lower (index n) (str t) = refl
one_in-sanitize lower (index n) (array xs) = nth_item-sanitize lower n xs
one_in-sanitize lower (index n) (object ms) = refl

-- A redacted value has nothing in it.
in_redacted : (ws : List Way) (k : String) → at (ws ++ key k ∷ []) redacted ≡ none
in_redacted [] k = refl
in_redacted (key j ∷ ws) k = refl
in_redacted (index n ∷ ws) k = refl

some_same : (v w : Json) → Path (Option Json) (some v) (some w) → w ≡ v
some_same v w e = cc

-- Whatever stands under a secret key at any depth of a sanitised payload, in objects and arrays,
-- is the text that says it is redacted; a key is secret if it is one of the ten names, without
-- outer blanks and in lower case.
pub sanitize-redacts :
    (lower : String → String) (ws : List Way) (k : String) (v w : Json)
    → is_secret lower k ≡ true
    → at (ws ++ key k ∷ []) (sanitize lower v) ≡ some w
    → w ≡ redacted
sanitize-redacts lower [] k v w secret e = here (one_in (key k) v) (
    sym (
      ap (λ o. and_on o (at []))
        (one_in-sanitize lower (key k) v
          ∙ ap
              (λ (b : Bool).
                if b then censored (one_in (key k) v) else cleaned lower (one_in (key k) v))
              secret))
    ∙ e)
  where
    here : (o : Option Json) → and_on (censored o) (at []) ≡ some w → w ≡ redacted
    here none q = absurd (cc q)
    here (some u) q = some_same redacted w q
sanitize-redacts lower (y ∷ ws) k v w secret e =
    onward (hides lower y) (one_in y v) (λ u. sanitize-redacts lower ws k u w secret)
      (sym (ap (λ o. and_on o (at (ws ++ key k ∷ []))) (one_in-sanitize lower y v)) ∙ e)
  where
    onward :
        (b : Bool) (o : Option Json)
        → ((u : Json) → at (ws ++ key k ∷ []) (sanitize lower u) ≡ some w → w ≡ redacted)
        → and_on (if b then censored o else cleaned lower o) (at (ws ++ key k ∷ [])) ≡ some w
        → w ≡ redacted
    onward true none next q = absurd (cc q)
    onward true (some u) next q = absurd (cc (sym (in_redacted ws k) ∙ q))
    onward false none next q = absurd (cc q)
    onward false (some u) next q = next u q

pub sanitize-keeps :
    (lower : String → String) (ws : List Way) (v : Json)
    → All (λ w. hides lower w ≡ false) ws
    → at ws (sanitize lower v) ≡ cleaned lower (at ws v)
sanitize-keeps lower [] v h = refl
sanitize-keeps lower (w ∷ ws) v h =
    ap (λ o. and_on o (at ws))
      (one_in-sanitize lower w v
        ∙ ap (λ (b : Bool). if b then censored (one_in w v) else cleaned lower (one_in w v)) h.0)
    ∙ onward (one_in w v) (λ u. sanitize-keeps lower ws u h.1)
  where
    onward :
        (o : Option Json)
        → ((u : Json) → at ws (sanitize lower u) ≡ cleaned lower (at ws u))
        → and_on (cleaned lower o) (at ws) ≡ cleaned lower (and_on o (at ws))
    onward none next = refl
    onward (some u) next = next u
