-- ===== src/Typed/Names/Msvc.antt =====
-- The branch of `methodName` of src/TypedRpcServer.h for MSVC, which reads `__FUNCSIG__`.
use mathlib.Core.List.{reverse, reverse-cons, reverse-append, reverse-reverse, append_assoc}
use rpcpp.Base.{
  ℕ, ◌≡◌, refl, ap, ◌∙◌, Text, text, true, false, Option, none, some, [], ◌∷◌, ◌++◌, All,
  All-append, arith, if◌then◌else◌, ◌==◌,
}
use rpcpp.Typed.Names.{
  colon, starts_with, starts_with-head, after_first, is_ident_char, ident_prefix, IsIdent,
}

abbrev msvc_marker : Text
msvc_marker = text "methodName<"

-- `sig.find('(', argStart)`, and what stands before it.
pub before_paren : Text → Option Text
before_paren [] = none
before_paren (c ∷ s) =
    let rest = before_paren s in
    if c == 40 then some [] else elim rest [ none ↦ none | some t ↦ some (c ∷ t) ]

-- The loop that walks back from the parenthesis over identifier characters.
pub ident_suffix : Text → Text
unfolding ident_prefix
ident_suffix s = reverse (ident_prefix (reverse s))

abbrev suffix_before : Option Text → Text
suffix_before none = []
suffix_before (some arg) = ident_suffix arg

abbrev msvc_name_at : Option Text → Text
msvc_name_at none = []
msvc_name_at (some s) = suffix_before (before_paren s)

pub method_name_msvc : Text → Text
unfolding after_first before_paren ident_suffix
method_name_msvc sig = msvc_name_at (after_first msvc_marker sig)

after_first-msvc : (s : Text) → after_first msvc_marker (msvc_marker ++ s) ≡ some s
unfolding after_first starts_with
after_first-msvc s = refl

after_first_msvc-skip :
    (pre s : Text)
    → All (λ c. (c == 109) ≡ false) pre
    → after_first msvc_marker (pre ++ msvc_marker ++ s) ≡ some s
unfolding after_first
after_first_msvc-skip [] s h = after_first-msvc s
after_first_msvc-skip (c ∷ pre) s h =
    rw (starts_with-head c 109 _ _ h.0, after_first_msvc-skip pre s h.1)

before_paren-found :
    (arg s : Text) → All (λ c. (c == 40) ≡ false) arg → before_paren (arg ++ 40 ∷ s) ≡ some arg
unfolding before_paren
before_paren-found [] s h = refl
before_paren-found (c ∷ arg) s h = rw (h.0, before_paren-found arg s h.1)

ident-not_paren : (c : ℕ) → is_ident_char c ≡ true → (c == 40) ≡ false
unfolding is_ident_char
ident-not_paren c h = ground arith

qualified-no_paren :
    (qual name : Text)
    → All (λ c. (c == 40) ≡ false) qual
    → All IsIdent name
    → All (λ c. (c == 40) ≡ false) (qual ++ colon ∷ name)
qualified-no_paren [] name h i = (refl, idents name i)
  where
    idents : (s : Text) → All IsIdent s → All (λ c. (c == 40) ≡ false) s
    idents [] j = tt
    idents (c ∷ s) j = (ident-not_paren c j.0, idents s j.1)
qualified-no_paren (c ∷ qual) name h i = (h.0, qualified-no_paren qual name h.1 i)

reverse-IsIdent : (s : Text) → All IsIdent s → All IsIdent (reverse s)
reverse-IsIdent [] h = tt
reverse-IsIdent (c ∷ s) h =
    rw (reverse-cons c s)
      (All-append IsIdent (reverse s) (c ∷ []) (reverse-IsIdent s h.1) (h.0, tt))

ident_prefix-stop : (s rest : Text) → All IsIdent s → ident_prefix (s ++ colon ∷ rest) ≡ s
unfolding ident_prefix is_ident_char
ident_prefix-stop [] rest h = refl
ident_prefix-stop (c ∷ s) rest h = rw h.0 (ap (◌∷◌ c) (ident_prefix-stop s rest h.1))

reverse-qualified :
    (qual name : Text) → reverse (qual ++ colon ∷ name) ≡ reverse name ++ colon ∷ reverse qual
reverse-qualified qual name =
    reverse-append qual (colon ∷ name)
    ∙ ap (λ s. s ++ reverse qual) (reverse-cons colon name)
    ∙ append_assoc (reverse name) (colon ∷ []) (reverse qual)

ident_suffix-qualified :
    (qual name : Text) → All IsIdent name → ident_suffix (qual ++ colon ∷ name) ≡ name
unfolding ident_suffix
ident_suffix-qualified qual name h =
    ap (λ s. reverse (ident_prefix s)) (reverse-qualified qual name)
    ∙ ap reverse (ident_prefix-stop (reverse name) (reverse qual) (reverse-IsIdent name h))
    ∙ reverse-reverse name

-- For a text of the form that MSVC produces, `... methodName<<signature up to the class>:<name>(...`, with
-- no `m` before the marker, no `(` before the parameter list, and a name of identifier characters,
-- `methodName` is that name, whatever the parameter types are.
pub method_name_msvc-qualified :
    (pre qual name tail : Text)
    → All (λ c. (c == 109) ≡ false) pre
    → All (λ c. (c == 40) ≡ false) qual
    → All IsIdent name
    → method_name_msvc ((pre ++ msvc_marker) ++ ((qual ++ colon ∷ name) ++ 40 ∷ tail)) ≡ name
unfolding method_name_msvc
method_name_msvc-qualified pre qual name tail before clean ident =
    let arg = qual ++ colon ∷ name in
    ap msvc_name_at (after_first_msvc-skip pre (arg ++ 40 ∷ tail) before)
    ∙ ap suffix_before (before_paren-found arg tail (qualified-no_paren qual name clean ident))
    ∙ ident_suffix-qualified qual name ident
