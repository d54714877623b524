-- ===== src/Tests/Serving.antt =====
-- pkg/server, pkg/messaging and pkg/util on concrete values.
use uni_core.Base.{
  zero, suc, ◌++◌, ℕ, ◌+◌, ◌-◌, String, ◌≡◌, refl, ap, sym, false, Option, none, some, List, [],
  ◌∷◌, map, arith,
}
use uni_core.Errors.{GoError, foreign, ok}
use uni_core.Api.Object.{Object, Item, client_object}
use uni_core.Api.Conditions.{ConditionUtil}
use uni_core.Server.Saga.{Action, run}
use uni_core.Server.Saga.Compensation.{
  Compensable, each_nil, each_cons, attempt, run-attempt, failed_run_restores,
}
use uni_core.Util.Retry.{tick, returned, do_with_context}
use uni_core.Util.Retry.Attempts.{ticks, Failing, first, again, retry-succeeds}
use uni_core.Util.Trie
use uni_core.Util.Trie.{TrieNode, Scanner, add_word, check_word, add_dictionary}
use uni_core.Util.Trie.Dictionary.{listed, check-add_dictionary}
use uni_core.Messaging.CascadingDelete.{Envelope, Cluster, CascadingDelete, consume}
use uni_core.Messaging.CascadingDelete.Fanout.{IsCluster, stop_at_error, expected, consume_deletes}

-- A quota is a number: the first action takes three, and the second fails.
abbrev allocate : Action ℕ
allocate = record {
  name = "allocate";
  action = λ n. (none, n + 3);
  compensate = some (λ n. (none, n - 3));
}

abbrev refused : Action ℕ
refused = record { name = "create"; action = λ n. (some (foreign "refused"), n); compensate = none }

allocate-Compensable : Compensable allocate
allocate-Compensable = record {
  fails_cleanly = λ e w w' h. ground arith;
  is_undone = λ w w' h. back w w' (ap (λ r. r.1) h);
}
  where
    back : (w w' : ℕ) → w + 3 ≡ w' → ◌≡◌ {A = Option GoError × ℕ} (none, w' - 3) (none, w)
    back w w' h = ap (λ n. (none, n)) (omega arith)

refused-Compensable : Compensable refused
refused-Compensable = record {
  fails_cleanly = λ e w w' h. sym (ap (λ r. r.1) h);
  is_undone = λ w w' h. ground arith;
}

abbrev order : List (Action ℕ)
order = allocate ∷ refused ∷ []

order_fails : (run order 10).0 ≡ some (foreign "refused")
unfolding run
order_fails = refl

failed_run_restores_example : (run order 10).1 ≡ 10
failed_run_restores_example =
    failed_run_restores order 10
      (each_cons allocate-Compensable (each_cons refused-Compensable each_nil)) (foreign "refused")
      order_fails

run-attempt_example : run order 10 ≡ attempt [] order 10
run-attempt_example = run-attempt order 10

abbrev dictionary : Scanner
dictionary = record { words = (1 ∷ 2 ∷ []) ∷ (1 ∷ 3 ∷ []) ∷ []; error = none }

check-add_dictionary_example :
    (check_word (1 ∷ []) (add_dictionary dictionary Trie.new).1 ≡ listed (1 ∷ []) dictionary.words)
    × ((add_dictionary dictionary Trie.new).0 ≡ dictionary.error)
check-add_dictionary_example = check-add_dictionary dictionary (1 ∷ [])

abbrev named : String → Option ℕ → Object
named name deleted = record {
  name = name;
  labels = [];
  annotations = [];
  finalizers = [];
  creation_timestamp = 1;
  deletion_timestamp = deleted;
  paused = false;
  conditions = [];
}

abbrev local_resources : List Object
local_resources = named "r1" (some 4) ∷ named "r2" none ∷ []

abbrev each :
    List Item
    → (Item → List String → Option GoError × List String)
    → List String
    → Option GoError × List String
each [] f w = (none, w)
each (i ∷ is) f w = stop_at_error (f i w) (each is f)

-- The world is the list of the names that were deleted.
abbrev local_cluster : Cluster (List String)
local_cluster = record {
  list = λ o w. (ok (map client_object local_resources), w);
  delete = λ o p w. (none, o.name ∷ w);
  each_list_item = each;
}

local-IsCluster : IsCluster local_cluster
local-IsCluster = record { each_nil = λ f w. refl; each_cons = λ i is f w. refl }

abbrev consumer : CascadingDelete
consumer = record { namespace = "unikorn"; resource_label = "project" }

abbrev deleted_project : Envelope
deleted_project = record { resource_id = "p1"; deletion_timestamp = some 9 }

consume_deletes_example :
    consume local_cluster consumer deleted_project []
    ≡ expected local_cluster consumer deleted_project []
consume_deletes_example = consume_deletes local_cluster consumer local-IsCluster deleted_project []

abbrev no_conditions : ConditionUtil
no_conditions = record { find = λ cs t. none; set = λ cs n. cs }

-- A callback that fails while the state is not zero.
abbrev attempt_once : ℕ → Option GoError × ℕ
attempt_once zero = (none, 0)
attempt_once (suc n) = (some (foreign "busy"), n)

abbrev fails_twice : Failing attempt_once 2 1 (foreign "busy") 0
fails_twice = again 0 (foreign "busy") (foreign "busy") 1 0 (first (foreign "busy") 1 refl) refl

retry-succeeds_example : do_with_context attempt_once (ticks 1 ++ tick ∷ []) 2 ≡ returned none 0
retry-succeeds_example = retry-succeeds attempt_once 2 1 (foreign "busy") 0 0 [] fails_twice refl
