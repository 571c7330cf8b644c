-- ===== src/QuickJs/Shapes/RoundTrip.antt =====
-- `rpcpp::qjs::write` and `rpcpp::qjs::read` (src/qjs/Writer.hpp, src/qjs/Reader.hpp), one after the other.
use mathlib.Core.Path.{subst}
use rpcpp.Base.{arith, ℕ, ◌≢◌, Text, ◌≡◌, ◌∙◌, sym, ap, false, List, ◌++◌, ◌⊎◌, inl, inr}
use rpcpp.Codec.{Result, ok, error}
use rpcpp.QuickJs.{Engine, World, Ref, refs_of, Holds}
use rpcpp.QuickJs.Laws.{View, Laws, Untouched}
use rpcpp.QuickJs.Reader.{Reader}
use rpcpp.QuickJs.Writer.{write}
use rpcpp.QuickJs.Writer.Ownership.{write-Holds, made_root}
use rpcpp.QuickJs.Shapes.Write.Building.{root_of-BuildsRoot}
use rpcpp.QuickJs.Shapes.{Shape, El, Fits}
use rpcpp.QuickJs.Shapes.Read.{MethodsRead, Rep-read}
use rpcpp.QuickJs.Shapes.Represents.{Rep}
use rpcpp.QuickJs.Shapes.Kept.{Rep-kept}
use rpcpp.QuickJs.Shapes.Write.{root_of}
use rpcpp.QuickJs.Shapes.Write.Rooted.{write-Rep}

module _ (e : Engine) (w : View e) (laws : Laws e w) where
  open e use {Value, Heap}

  ok-not_error : (v : Value) (what : Text) → ok v ≢ error what
  ok-not_error v what is = cc

  same_value : (v m : Value) → ok v ≡ ok m → v ≡ m
  same_value v m is = cc

  -- The value that was returned is the root that was made.
  returned_Holds :
      (q : Result Value × World e) (m : Value) (held : List (Ref e)) (v : Value) (wo' : World e)
      → Holds e (refs_of e m ++ held) q.1 × ((q.0 ≡ ok m) ⊎ ((what : Text) × (q.0 ≡ error what)))
      → q ≡ (ok v, wo')
      → Holds e (refs_of e v ++ held) wo'
  returned_Holds q m held v wo' (holds, inl made_it) is =
      subst (λ u. Holds e (refs_of e v ++ held) u) (ap (λ r. r.1) is)
        (subst (λ u. Holds e (refs_of e u ++ held) q.1)
          (sym (same_value v m (sym (ap (λ r. r.0) is) ∙ made_it))) holds)
  returned_Holds q m held v wo' (holds, inr (what, thrown)) is =
      absurd (ok-not_error v what (sym (ap (λ r. r.0) is) ∙ thrown))

  pub read-write :
      (X : Type 0)
      → e.has_ref_count e.null ≡ false
      → (s : Shape) (x : El e s) (held : List (Ref e)) (wo : World e) → Fits e s x
      → Holds e held wo
      → ((v : Value) × (wo' : World e) × (write e (root_of e s x) wo ≡ (ok v, wo'))
          × ((h : Heap) → Untouched e w wo'.heap h → Rep e w (w.made wo.heap) s x v h)
          × Holds e (refs_of e v ++ held) wo')
        × ((t : Shape) (y : El e t) (v : Value) (lo : ℕ) (h : Heap) (st : Reader e)
            → Fits e t y
            → Rep e w lo t y v h
            → Untouched e w h st.world.heap
            → MethodsRead e w laws X lo t y v st)
  read-write X plain_null s x held wo fits holds =
      let wrote = write-Rep e w laws s x wo fits in
      (
        (
          wrote.value,
          wrote.after,
          wrote.is,
          λ h u.
              Rep-kept e w laws s x wrote.value (w.made wo.heap) (w.made wo.heap)
                (w.made wrote.after.heap) wrote.after.heap h (omega arith) u (inr (omega arith))
                wrote.told,
          returned_Holds (write e (root_of e s x) wo) (made_root e (root_of e s x) wo) held
              wrote.value wrote.after
              (write-Holds e plain_null (root_of e s x) held wo (root_of-BuildsRoot e s x) holds)
              wrote.is,
        ),
        λ t y v lo h st fit rep u. Rep-read e w laws X t y v lo st fit (
            Rep-kept e w laws t y v lo lo (w.made h) h st.world.heap (omega arith) u
              (inr (omega arith)) rep),
      )
