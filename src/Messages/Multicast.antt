-- ===== src/Messages/Multicast.antt =====
-- The sending of a value to the other proxies over independent paths, as CtProtocolState.cpp,
-- BftProtocolState.cpp and CrusaderAgreementState.cpp each write it out, with messages of
-- messaging/PathOverlayMessage.h.
use pddm.Prelude.{ℕ, ◌-◌, leb, ◌==◌, if◌then◌else◌, false, List, [], ◌∷◌, ◌++◌, length, replicate}
use pddm.Messages.Outcome.{Outcome, ok, length_error, undefined, ◌>>=◌}
use pddm.Messages.Body.{MessageBody, Crypto}
use pddm.PathFinder.Defs.{InfectedNode, find_paths}

-- std::remove_copy of a vector into one with one element less, whose elements are zeros at first. It
-- writes past the end if `id` is not among the elements, and an empty vector asks for 2^64 - 1 elements.
unfoldable pub remove : ℕ → List ℕ → List ℕ
remove id [] = []
remove id (x ∷ xs) = let rest = remove id xs in if x == id then rest else x ∷ rest

unfoldable pub others : ℕ → List ℕ → Outcome (List ℕ)
unfolding remove
others id [] = length_error
others id (x ∷ xs) =
    let kept = remove id (x ∷ xs) in
    if leb (length kept) (length xs)
    then ok (kept ++ replicate (length xs - length kept) 0)
    else undefined

-- The last element of a list that starts with `x`.
unfoldable pub back : ℕ → List ℕ → ℕ
back x [] = x
back x (y ∷ rest) = back y rest

-- The loop over the paths: a message for each, encrypted for the path's end.
unfoldable pub path_messages : Crypto → ℕ → MessageBody → List (List ℕ) → Outcome (List MessageBody)
unfolding back
path_messages crypto query_num body [] = ok []
path_messages crypto query_num body ([] ∷ rest) = undefined
path_messages crypto query_num body ((first ∷ remaining) ∷ rest) = do
  messages ← path_messages crypto query_num body rest
  let message = MessageBody.path_overlay query_num first false false remaining body
  ok (crypto.rsa_encrypt message (back first remaining) ∷ messages)

-- The proxies but this meter, paths to them from a round on, and a message for each.
unfoldable pub multicast :
    Crypto
    → (List InfectedNode → List InfectedNode)
    → ℕ
    → ℕ
    → ℕ
    → ℕ
    → List ℕ
    → MessageBody
    → Outcome (List MessageBody)
unfolding others path_messages
multicast crypto order query_num meter_id num_meters round proxies body = do
  other_proxies ← others meter_id proxies
  proxy_paths ← find_paths order meter_id other_proxies num_meters round
  path_messages crypto query_num body proxy_paths
