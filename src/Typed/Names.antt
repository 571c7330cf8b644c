-- ===== src/Typed/Names.antt =====
-- `methodName` of src/TypedRpcServer.h: the name of a method, out of the text that the compiler makes of
-- the enclosing function (`__PRETTY_FUNCTION__`). The branch for MSVC is in Typed/Names/Msvc.
pub mod Msvc
use rpcpp.Base.{
  ℕ, ◌≡◌, refl, ap, ◌∙◌, Text, text, Bool, true, false, ◌&&◌, ◌||◌, Option, none, some, [], ◌∷◌,
  ◌++◌, length, drop, is_empty, All, arith, if◌then◌else◌, ◌==◌, leb,
}

abbrev pub colon : ℕ
colon = 58

abbrev pub start_marker : Text
start_marker = text "MemFn = "

-- `isIdentChar`
unfoldable pub is_ident_char : ℕ → Bool
is_ident_char c =
    (leb 97 c && leb c 122) || ((leb 65 c && leb c 90) || ((leb 48 c && leb c 57) || c == 95))

unfoldable pub starts_with : Text → Text → Bool
starts_with s [] = true
starts_with [] (p ∷ ps) = false
starts_with (c ∷ s) (p ∷ ps) = let rest = starts_with s ps in if c == p then rest else false

-- `sig.find(m)`, and what stands behind it.
pub after_first : Text → Text → Option Text
unfolding starts_with
after_first m [] = if is_empty m then some [] else none
after_first m (c ∷ s) =
    let rest = after_first m s in
    if starts_with (c ∷ s) m then some (drop (length m) (c ∷ s)) else rest

abbrev pub ends_argument : ℕ → Bool
ends_argument c = (c == 59) || (c == 93)

-- The loop that looks for `;` or `]`; without one the argument goes up to the end.
pub argument : Text → Text
argument [] = []
argument (c ∷ s) = let rest = argument s in if ends_argument c then [] else c ∷ rest

abbrev pub or_here : Bool → Text → Option Text → Option Text
or_here _ _ (some t) = some t
or_here true s none = some s
or_here false s none = none

-- `arg.rfind("::")`, and what stands behind it.
pub after_last_colons : Text → Option Text
unfolding starts_with
after_last_colons [] = none
after_last_colons (c ∷ s) =
    or_here (starts_with (c ∷ s) (colon ∷ colon ∷ [])) (drop 1 s) (after_last_colons s)

-- The loop over identifier characters.
pub ident_prefix : Text → Text
unfolding is_ident_char
ident_prefix [] = []
ident_prefix (c ∷ s) = let rest = ident_prefix s in if is_ident_char c then c ∷ rest else []

abbrev unqualified : Text → Text
unqualified arg = elim (after_last_colons arg) [ none ↦ arg | some name ↦ name ]

abbrev name_at : Option Text → Text
name_at none = []
name_at (some s) = ident_prefix (unqualified (argument s))

pub method_name : Text → Text
unfolding after_first argument after_last_colons ident_prefix
method_name sig = name_at (after_first start_marker sig)

abbrev pub IsIdent : ℕ → Type 0
IsIdent c = is_ident_char c ≡ true

after_first-marker : (s : Text) → after_first start_marker (start_marker ++ s) ≡ some s
unfolding after_first starts_with
after_first-marker s = refl

starts_with-head : (c p : ℕ) (s ps : Text) → (c == p) ≡ false → starts_with (c ∷ s) (p ∷ ps) ≡ false
unfolding starts_with
starts_with-head c p s ps e = rw e

after_first-skip :
    (pre s : Text)
    → All (λ c. (c == 77) ≡ false) pre
    → after_first start_marker (pre ++ start_marker ++ s) ≡ some s
unfolding after_first starts_with
after_first-skip [] s h = after_first-marker s
after_first-skip (c ∷ pre) s h = rw (h.0, after_first-skip pre s h.1)

argument-stop :
    (arg s : Text) (e : ℕ)
    → All (λ c. ends_argument c ≡ false) arg
    → ends_argument e ≡ true
    → argument (arg ++ e ∷ s) ≡ arg
unfolding argument
argument-stop [] s e h stop = rw stop
argument-stop (c ∷ arg) s e h stop = rw h.0 (ap (◌∷◌ c) (argument-stop arg s e h.1 stop))

ident-not_end : (c : ℕ) → is_ident_char c ≡ true → ends_argument c ≡ false
unfolding is_ident_char
ident-not_end c h = ground arith

ident-not_colon : (c : ℕ) → is_ident_char c ≡ true → (c == colon) ≡ false
unfolding is_ident_char
ident-not_colon c h = ground arith

after_last_colons-ident : (name : Text) → All IsIdent name → after_last_colons name ≡ none
unfolding after_last_colons
after_last_colons-ident [] h = refl
after_last_colons-ident (c ∷ name) h = rw (
  starts_with-head c colon name (colon ∷ []) (ident-not_colon c h.0),
  after_last_colons-ident name h.1,
)

-- A colon before an identifier is not the first of two.
one_colon : (name : Text) → All IsIdent name → after_last_colons (colon ∷ name) ≡ none
unfolding after_last_colons starts_with
one_colon [] h = refl
one_colon (c ∷ name) h = rw (ident-not_colon c h.0, after_last_colons-ident name h.1)

after_last_colons-found :
    (qual name : Text)
    → All IsIdent name
    → after_last_colons (qual ++ colon ∷ colon ∷ name) ≡ some name
unfolding after_last_colons starts_with
after_last_colons-found [] name h = rw (one_colon name h)
after_last_colons-found (c ∷ qual) name h = rw (after_last_colons-found qual name h)

ident_prefix-ident : (name : Text) → All IsIdent name → ident_prefix name ≡ name
unfolding ident_prefix
ident_prefix-ident [] h = refl
ident_prefix-ident (c ∷ name) h = rw h.0 (ap (◌∷◌ c) (ident_prefix-ident name h.1))

qualified-argument :
    (qual name : Text)
    → All (λ c. ends_argument c ≡ false) qual
    → All IsIdent name
    → All (λ c. ends_argument c ≡ false) (qual ++ colon ∷ colon ∷ name)
qualified-argument [] name h i = (refl, (refl, idents name i))
  where
    idents : (s : Text) → All IsIdent s → All (λ c. ends_argument c ≡ false) s
    idents [] j = tt
    idents (c ∷ s) j = (ident-not_end c j.0, idents s j.1)
qualified-argument (c ∷ qual) name h i = (h.0, qualified-argument qual name h.1 i)

-- For a text of the form that GCC and Clang produce, `... MemFn = <class>::<name>` up to `;` or `]`, with
-- no `M` before the marker, no `;` or `]` in the class, and a name of identifier characters, `methodName`
-- is that name, whatever follows and however the class is qualified.
pub method_name-qualified :
    (pre qual name tail : Text) (e : ℕ)
    → All (λ c. (c == 77) ≡ false) pre
    → All (λ c. ends_argument c ≡ false) qual
    → All IsIdent name
    → ends_argument e ≡ true
    → method_name ((pre ++ start_marker) ++ ((qual ++ colon ∷ colon ∷ name) ++ e ∷ tail)) ≡ name
unfolding method_name
method_name-qualified pre qual name tail e before clean ident stop =
    let arg = qual ++ colon ∷ colon ∷ name in
    ap name_at (after_first-skip pre (arg ++ e ∷ tail) before)
    ∙ ap (λ a. ident_prefix (unqualified a))
        (argument-stop arg tail e (qualified-argument qual name clean ident) stop)
    ∙ ap (λ o. ident_prefix (elim o [ none ↦ arg | some n ↦ n ]))
        (after_last_colons-found qual name ident)
    ∙ ident_prefix-ident name ident
