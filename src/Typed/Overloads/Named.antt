-- ===== src/Typed/Overloads/Named.antt =====
-- A method registered on the server's own object under the name of its member pointer, as in
-- src/TypedRpcServer.h, and a request for that name.
use rpcpp.Base.{ℕ, ◌≡◌, ◌≢◌, refl, ap, ◌∙◌, Text, true, false, some, [], ◌∷◌, ◌++◌, All, ◌==◌}
use rpcpp.Envelope.{version}
use rpcpp.Codec.{Codec, ok}
use rpcpp.Net.{run_calls}
use rpcpp.Server.{ParamsArg, route}
use rpcpp.Typed.{Args, Reflection, Method, decode_params}
use rpcpp.Typed.Decoding.{method_answer, method_call}
use rpcpp.Typed.Names.{method_name-qualified, start_marker, colon, ends_argument, IsIdent}
use rpcpp.Typed.Overloads.{OwnServer, with_name, add_own_method, add_own_method_derived}

with_name-some :
    {A : Type 0} (name : Text) (f : Text → A) → name ≢ [] → with_name name f ≡ some (f name)
with_name-some [] f ne = absurd (ne refl)
with_name-some (x ∷ xs) f ne = refl

module _ (c : Codec) (r : Reflection c) (H : Type 0) {T : Type 0} where
  open c use {Input, Generic}

  -- `addMethod<&Class::name>()`, for a nonempty name of identifier characters and the signature text that
  -- GCC and Clang make of the member pointer: it compiles, and a request of version 2.0 for `name` whose
  -- params decode runs the member once on the server's own object, with the answer that its outcome
  -- asks for.
  pub derived_method_call :
      (member : T → Method c H) (o : OwnServer c r H T) (pre qual name tail : Text) (e : ℕ)
      (id : Generic) (params : ParamsArg Input Generic) (args : Args c (member o.object).params)
      → All (λ x. (x == 77) ≡ false) pre
      → All (λ x. ends_argument x ≡ false) qual
      → All IsIdent name
      → name ≢ []
      → ends_argument e ≡ true
      → decode_params c r (member o.object).params params ≡ ok args
      → let signature = (pre ++ start_marker) ++ ((qual ++ colon ∷ colon ∷ name) ++ e ∷ tail) in
        let ran = (member o.object).invoke args o.typed.server.host in
        (o' : OwnServer c r H T) × (add_own_method_derived c r H signature member o ≡ some o')
        × (let q = route c H name id version params o'.typed.server in
            (q.1 ≡ method_answer c r id (member o.object).result ran.outcome)
            × (q.0.net ≡ run_calls c ran.calls o.typed.server.net)
            × (q.0.host ≡ ran.host))
  unfolding add_own_method_derived add_own_method
  derived_method_call member o pre qual name tail e id params args before clean ident some_name stop
        decodes =
      (
        add_own_method c r H member name o,
        ap (λ n. with_name n (λ m. add_own_method c r H member m o))
              (method_name-qualified pre qual name tail e before clean ident stop)
            ∙ with_name-some name (λ m. add_own_method c r H member m o) some_name,
        method_call c r H o.typed name (member o.object) id params args decodes,
      )
