-- ===== src/Tests/Jsons.antt =====
-- The JSON of the inputs of two votes.
use ovote_node.Base.{◌≡◌, refl, [], ◌∷◌, ok}
use ovote_node.Types.ZkJson.{json_object, string}
use ovote_node.Types.ZkJsonRoundTrip.{read_inputs, json_object-read}
use ovote_node.Tests.Votes.{inputs}

-- "2"
writes : (json_object inputs).result ≡ string (50 ∷ [])
unfolding json_object
writes = refl

json_object-read_example : read_inputs 3 2 (json_object inputs) ≡ ok inputs
json_object-read_example = json_object-read inputs
