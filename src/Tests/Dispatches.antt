-- ===== src/Tests/Dispatches.antt =====
-- The theorems on typed methods, overloads, discovery and `replaceAll` of src/TypedRpcServer.h at concrete
-- inputs.
use rpcpp.Typed.Async.{AsyncMethod, Resolver, Calls, resolves, rejects, async_method_handler}
use rpcpp.Typed.Async.Kept.{end_later, kept_settles}
use rpcpp.Net.{copy, drop, respond_with_error}
use rpcpp.Base.{
  ◌+◌, pos, ℕ, ◌≡◌, ◌≢◌, refl, Text, text, true, none, some, List, [], ◌∷◌, ◌++◌, length, find,
  text_eq, text_eq_ne,
}
use rpcpp.Envelope.{version}
use rpcpp.Net.{context}
use rpcpp.Server.{Server, Answer, silent, decoded, route}
use rpcpp.Typed.Async.{add_async_method}
use rpcpp.Typed.Dispatch.{async_method_call}
use rpcpp.Net.{run_calls}
use rpcpp.Server.{returned}
use rpcpp.Typed.Decoding.{method_answer}
use rpcpp.Typed.Overloads.{OwnServer, add_own_method_derived}
use rpcpp.Typed.Overloads.Named.{derived_method_call}
use rpcpp.Typed.Schema.{replace_all}
use rpcpp.Typed.Schema.Substitution.{substitute, replace_all-substitute}
use rpcpp.Typed.Discovery.{
  Shared, discover_name, Documents, Typed, registry_of, described, Act, method, discovery, message,
  perform, perform_all,
}
use rpcpp.Typed.Discovery.Synced.{fresh}
use rpcpp.Typed.Discovery.Current.{discovery_answer, discover_current}
use rpcpp.Tests.{plain}
use rpcpp.Tests.Methods.{plain_types, bare, hasty, add, add-IsIdent, blank, decodes, server_of}

abbrev with_hasty : Server plain ℕ
with_hasty = server_of (add_async_method plain plain_types ℕ (text "hasty") hasty bare)

abbrev asked_hasty : Server plain ℕ × Answer Text
asked_hasty = route plain ℕ (text "hasty") 5 version (decoded 8) with_hasty

no_sync_handler : find (text "hasty") (server_of bare).handlers ≡ none
unfolding find
no_sync_handler = refl

async_method_call_example :
    (asked_hasty.0.net.port.sent ≡ record { origin = context 0; bytes = 5 ∷ 5 ∷ 7 ∷ [] } ∷ [])
    × (asked_hasty.0.net.port.inflight ≡ 0)
    × (asked_hasty.0.host ≡ 5)
    × (asked_hasty.1 ≡ silent)
async_method_call_example =
    async_method_call plain plain_types ℕ bare (text "hasty") hasty 5 (decoded 8) (7, tt)
      no_sync_handler decodes refl (refl, (refl, tt))

replace_all-substitute_example :
    replace_all (text "xaaab") (text "aa") (text "aab")
    ≡ substitute (text "aa") (text "aab") 0 (text "xaaab")
replace_all-substitute_example =
    replace_all-substitute (text "xaaab") (text "aa") (text "aab") (λ e. cc)

-- A server with its own object, which is not used.
abbrev own : OwnServer plain plain_types ℕ ℕ
own = record { object = 3; typed = bare }

abbrev signature : Text
signature = (text "[with auto " ++ text "MemFn = ") ++ (text "&Calc::add" ++ text "; x]")

derived_method_call_example :
    (o : OwnServer plain plain_types ℕ ℕ) × (add_own_method_derived plain plain_types ℕ signature
        (λ x. add)
        own
      ≡ some o)
    × (let q = route plain ℕ (text "add") 5 version (decoded 8) o.typed.server in
        (q.1 ≡ method_answer plain plain_types 5 (some true) (returned 11))
        × (q.0.net ≡ run_calls plain [] (server_of bare).net)
        × (q.0.host ≡ 5))
derived_method_call_example =
    derived_method_call plain plain_types ℕ (λ x. add) own (text "[with auto ") (text "&Calc")
      (text "add") (text " x]") 59 5 (decoded 8) (7, tt)
      (refl, (refl, (refl, (refl, (refl, (refl, (refl, (refl, (refl, (refl, (refl, tt)))))))))))
      (refl, (refl, (refl, (refl, (refl, tt))))) add-IsIdent (λ e. cc) refl decodes

abbrev documents : Documents plain
documents = record {
  generics = blank;
  object_type = true;
  as_result = length;
  pretty = λ t. t;
  each_generator = λ m. m;
  each_method = λ m. m;
}

-- One method before and one after `addDiscoveryMethod`, and a message between.
abbrev later : List (Act plain plain_types documents ℕ)
later = method (text "mul") add ∷ message (97 ∷ 7 ∷ 0 ∷ []) ∷ []

abbrev discovering : Typed plain plain_types documents ℕ
discovering = perform_all plain plain_types documents ℕ later (
    perform plain plain_types documents ℕ discovery (
      perform_all plain plain_types documents ℕ (method (text "add") add ∷ [])
        (fresh plain plain_types documents ℕ 4)))

abbrev discovering_server : Server plain (Shared ℕ)
discovering_server = discovering.server

mul_is_another_name : text "mul" ≢ discover_name
unfolding text_eq
mul_is_another_name = (text_eq_ne (text "mul") discover_name).0 refl

discover_current_example :
    let q = route plain (Shared ℕ) discover_name 5 version (decoded 8) discovering_server in
    (q.1
      ≡ discovery_answer plain plain_types documents ℕ 5 (
          described plain plain_types documents ℕ
            (registry_of plain plain_types documents ℕ discovering)))
    × (q.0.net ≡ discovering_server.net)
    × (q.0.host ≡ discovering_server.host)
discover_current_example =
    discover_current plain plain_types documents ℕ 4 (method (text "add") add ∷ []) later 5
      (decoded 8) (mul_is_another_name, (tt, tt))

-- A method that keeps its resolver, in a host that counts; it is rejected later, and then resolved.
abbrev patient : AsyncMethod plain plain_types ℕ
patient = record {
  params = true ∷ [];
  result = true;
  invoke =
      λ args h. record { host = h; uses = []; keep = some (λ s n. n + 1); outcome = returned tt };
}

kept_settles_example :
    let ran = async_method_handler plain plain_types ℕ patient 5 (decoded 8) 2 4 in
    (s : Resolver plain plain_types ℕ ℕ) × (before : Calls plain plain_types ℕ) × (after : Calls
      plain plain_types ℕ)
    × (ran.host ≡ 5)
    × (ran.calls ≡ (copy 2 ∷ copy 2 ∷ before) ++ drop 2 ∷ [])
    × (end_later plain plain_types ℕ 2 (rejects (pos 1) (text "no") ∷ resolves 3 ∷ []) s
        ≡ after ++ drop 2 ∷ drop 2 ∷ [])
    × (before ++ after ≡ respond_with_error 2 (pos 1) (text "no") ∷ [])
kept_settles_example =
    kept_settles plain plain_types ℕ patient 5 (decoded 8) 2 4 (7, tt) (λ s n. n + 1)
      (rejects (pos 1) (text "no") ∷ resolves 3 ∷ []) decodes refl
