-- ===== src/PubSub/Names/RoundTrip.antt =====
-- About the resource names of pubsub/types.rs: printing and parsing.
use Prim.Native.Char.{Char}
use text.Mathlib.TextLemmas.{nil-append, cons-append, append_assoc}
use text.Mathlib.TextEquality.{Char-path}
use lclq.Common.{
  String, ◌≡◌, refl, sym, ap, ◌∙◌, Bool, true, not, inl, inr, List, [], ◌∷◌, arith, str_eq, eq_iff,
  Bool-cases,
}
use lclq.Common.Chars.{is_char, all_chars}
use lclq.Common.Text.{◌<>◌}
use lclq.Error.{ok}
use lclq.Common.Split.{push_front}
use lclq.PubSub.Names.{
  ResourceName, topic, subscription, snapshot, split_slash, typed, from_parts, parse, project,
  resource_id, display,
}

abbrev pub has_no_slash : String → Bool
has_no_slash = all_chars (λ c. not (is_char b'/' c))

split_slash-part : (s : String) → has_no_slash s ≡ true → split_slash s ≡ s ∷ []
unfolding split_slash all_chars
split_slash-part String.[] h = refl
split_slash-part (String.◌∷◌ c s) h = ground (arith, split_slash-part s)

split_slash-append :
    (s t : String) → has_no_slash s ≡ true → split_slash (s <> "/" <> t) ≡ s ∷ split_slash t
unfolding split_slash all_chars
split_slash-append String.[] t h =
    rw (nil-append ("/" <> t), cons-append "/" "" t, nil-append t) refl
split_slash-append (String.◌∷◌ c s) t h =
    rw (cons-append c s ("/" <> t)) (ground (arith, split_slash-append s t))

-- The text that the parts came from.
abbrev join : List String → String
join [] = ""
join (part ∷ []) = part
join (part ∷ next ∷ parts) = part <> "/" <> join (next ∷ parts)

join-push_front :
    (c : Char) (parts : List String) → join (push_front c parts) ≡ String.◌∷◌ c (join parts)
join-push_front c [] = refl
join-push_front c (part ∷ []) = refl
join-push_front c (part ∷ next ∷ parts) = rw (cons-append c part ("/" <> join (next ∷ parts))) refl

split_slash-cons : (s : String) → (p : String) × (ps : List String) × (split_slash s ≡ p ∷ ps)
unfolding split_slash
split_slash-cons String.[] = ("", [], refl)
split_slash-cons (String.◌∷◌ c s) =
    let (p, ps, e) = split_slash-cons s in
    elim (Bool-cases (is_char b'/' c)) [
      | inl t ↦ ("", split_slash s, rw t refl)
      | inr t ↦ (String.◌∷◌ c p, ps, rw (t, e) refl)
    ]

slash : (c : Char) → is_char b'/' c ≡ true → c ≡ "/"
slash c t = Char-path c "/" (ground arith)

join-split_slash : (s : String) → join (split_slash s) ≡ s
unfolding split_slash
join-split_slash String.[] = refl
join-split_slash (String.◌∷◌ c s) = elim (Bool-cases (is_char b'/' c)) [
  | inl t ↦
      let (p, ps, e) = split_slash-cons s in
      let whole : join (p ∷ ps) ≡ s = ap join (sym e) ∙ join-split_slash s in
      rw (t, e, whole, nil-append ("/" <> s), cons-append "/" "" s, nil-append s, slash c t) refl
  | inr t ↦ rw (t, join-push_front c (split_slash s), join-split_slash s) refl
]

abbrev between : (ty p i : String) → String
between ty p i = "projects" <> "/" <> p <> "/" <> ty <> "/" <> i

format_parts :
    (ty p i : String)
    → has_no_slash p ≡ true
    → has_no_slash ty ≡ true
    → has_no_slash i ≡ true
    → split_slash (between ty p i) ≡ "projects" ∷ p ∷ ty ∷ i ∷ []
unfolding all_chars
format_parts ty p i hp ht hi =
    rw
      (
        split_slash-append "projects" (p <> "/" <> ty <> "/" <> i) refl,
        split_slash-append p (ty <> "/" <> i) hp,
        split_slash-append ty i ht,
        split_slash-part i hi,
      )
      refl

-- A format's text with its words and slashes apart.
format_pieces :
    (w ty p i : String)
    → (w <> "/") <> p <> (("/" <> ty) <> "/") <> i ≡ w <> "/" <> p <> "/" <> ty <> "/" <> i
format_pieces w ty p i =
    append_assoc w "/" _
    ∙ ap (λ x. w <> "/" <> p <> x) (append_assoc ("/" <> ty) "/" i ∙ append_assoc "/" ty ("/" <> i))

display-between :
    (r : ResourceName)
    → (ty : String) × (has_no_slash ty ≡ true)
      × (display r ≡ between ty (project r) (resource_id r))
      × (typed ty (project r) (resource_id r) ≡ ok r)
unfolding display typed all_chars
display-between (topic p i) = ("topics", refl, format_pieces "projects" "topics" p i, refl)
display-between (subscription p i) =
    ("subscriptions", refl, format_pieces "projects" "subscriptions" p i, refl)
display-between (snapshot p i) = ("snapshots", refl, format_pieces "projects" "snapshots" p i, refl)

-- A resource name whose project and ID hold no slash is what its text parses to.
pub parse-display :
    (r : ResourceName)
    → has_no_slash (project r) ≡ true
    → has_no_slash (resource_id r) ≡ true
    → parse (display r) ≡ ok r
unfolding parse from_parts
parse-display r hp hi =
    let (ty, ht, e, t) = display-between r in
    rw (e, format_parts ty (project r) (resource_id r) hp ht hi) t

display_known :
    (known : String) (ty p i : String) (r known_name : ResourceName)
    → str_eq ty known ≡ true
    → r ≡ known_name
    → display known_name ≡ between known p i
    → display r ≡ between ty p i
display_known known ty p i r known_name e same d =
    ap display same ∙ d ∙ ap (λ x. between x p i) (sym ((eq_iff ty known).0 e))

display-typed :
    (ty p i : String) (r : ResourceName) → typed ty p i ≡ ok r → display r ≡ between ty p i
unfolding typed display
display-typed ty p i r h = elim (Bool-cases (str_eq ty "topics")) [
  | inl e ↦
      display_known "topics" ty p i r (topic p i) e (ground arith)
        (format_pieces "projects" "topics" p i)
  | inr n ↦ elim (Bool-cases (str_eq ty "subscriptions")) [
    | inl e ↦
        display_known "subscriptions" ty p i r (subscription p i) e (ground arith)
          (format_pieces "projects" "subscriptions" p i)
    | inr m ↦ elim (Bool-cases (str_eq ty "snapshots")) [
      | inl e ↦
          display_known "snapshots" ty p i r (snapshot p i) e (ground arith)
            (format_pieces "projects" "snapshots" p i)
      | inr l ↦ absurd (ground arith)
    ]
  ]
]

display-from_parts :
    (name : String) (parts : List String) (r : ResourceName)
    → from_parts name parts ≡ ok r
    → display r ≡ join parts
unfolding from_parts
display-from_parts name [] r h = cc
display-from_parts name (a ∷ []) r h = cc
display-from_parts name (a ∷ b ∷ []) r h = cc
display-from_parts name (a ∷ b ∷ c ∷ []) r h = cc
display-from_parts name (a ∷ b ∷ c ∷ d ∷ []) r h = elim (Bool-cases (str_eq a "projects")) [
  | inl e ↦
      display-typed c b d r (ground arith)
      ∙ ap (λ x. x <> "/" <> b <> "/" <> c <> "/" <> d) (sym ((eq_iff a "projects").0 e))
  | inr e ↦ absurd (ground arith)
]
display-from_parts name (a ∷ b ∷ c ∷ d ∷ e ∷ parts) r h = cc

-- If a text parses to a resource name, that name's text is the text.
pub display-parse : (name : String) (r : ResourceName) → parse name ≡ ok r → display r ≡ name
unfolding parse
display-parse name r h = display-from_parts name (split_slash name) r h ∙ join-split_slash name
