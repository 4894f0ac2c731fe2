-- ===== src/Ciwatch.antt =====
-- tools/ciwatch: the jobs of a workflow and their depths (dag.go). A map with texts as keys is a list of
-- its entries in the order in which a loop visits them, or a function that gives the zero value for a
-- missing key.
pub mod Kahn
pub mod Phase
pub mod Cells
use Prim.Native.Nat.{zero}
use awsbnkctl.Base.{
  ℕ, suc, ◌+◌, String, Bool, true, false, Option, none, some, List, [], ◌∷◌, ◌++◌, length, map,
  lookup, ltb, str_eq, ℤ, pos, negsuc, eqb_ℤ, if◌then◌else◌,
}

pub record WorkflowJob : Type 0 where
  pub name : String
  pub needs : List String

abbrev pub Jobs : Type 0
Jobs = List (String × WorkflowJob)

-- `m[k] = v`
abbrev pub put {ℓ} : {V : Type ℓ} → (String → V) → String → V → String → V
put m k v j = if str_eq k j then v else m j

abbrev pub Rev : Type 0
Rev = String → List String

pub record Graph : Type 0 where
  pub depth : String → ℕ
  pub indeg : String → ℤ
  pub rev : Rev

-- `rev[dep] = append(rev[dep], id)` for each dep
unfoldable pub add_revs : String → List String → Rev → Rev
add_revs id [] rev = rev
add_revs id (dep ∷ deps) rev = add_revs id deps (put rev dep (rev dep ++ (id ∷ [])))

unfoldable pub build_graph : Jobs → Graph → Graph
unfolding add_revs
build_graph [] g = g
build_graph ((id, j) ∷ jobs) g = build_graph jobs (record {
  depth = put g.depth id 0;
  indeg = put g.indeg id (pos (length j.needs));
  rev = add_revs id j.needs g.rev;
})

abbrev pub empty_graph : Graph
empty_graph = record { depth = λ id. 0; indeg = λ id. pos 0; rev = λ id. [] }

-- The variables of the loop on the queue.
pub record Search : Type 0 where
  pub depth : String → ℕ
  pub indeg : String → ℤ
  pub queue : List String

-- `n--`
abbrev pub dec : ℤ → ℤ
dec (pos zero) = negsuc 0
dec (pos (suc n)) = pos n
dec (negsuc n) = negsuc (suc n)

unfoldable pub queue_zeros : (String → ℤ) → List String → List String
queue_zeros indeg [] = []
queue_zeros indeg (id ∷ ids) =
    let rest = queue_zeros indeg ids in if eqb_ℤ (indeg id) (pos 0) then id ∷ rest else rest

abbrev pub raise : (String → ℕ) → String → ℕ → String → ℕ
raise depth child d = if ltb (depth child) d then put depth child d else depth

abbrev pub enqueue : List String → String → ℤ → List String
enqueue queue child n = if eqb_ℤ n (pos 0) then queue ++ (child ∷ []) else queue

abbrev pub visit_child : String → String → Search → Search
visit_child id child k = record {
  depth = raise k.depth child (k.depth id + 1);
  indeg = put k.indeg child (dec (k.indeg child));
  queue = enqueue k.queue child (dec (k.indeg child));
}

-- The loop on the children of a job that is taken from the queue.
unfoldable pub visit_children : String → List String → Search → Search
visit_children id [] k = k
visit_children id (child ∷ cs) k = visit_children id cs (visit_child id child k)

-- The loop on the queue, with the number of jobs processed; `none` is out of fuel.
unfoldable pub search : ℕ → Rev → ℕ → Search → List String → Option (Search × ℕ)
unfolding visit_children
search fuel rev processed k [] = some (k, processed)
search zero rev processed k (id ∷ q) = none
search (suc fuel) rev processed k (id ∷ q) =
    let k' = visit_children id (rev id) (record k { queue = q }) in
    search fuel rev (suc processed) k' k'.queue

-- Whether a cycle is reported.
abbrev depths_of : Jobs → Option (Search × ℕ) → Option ((String → ℕ) × Bool)
depths_of jobs none = none
depths_of jobs (some (k, processed)) = some (k.depth, ltb processed (length jobs))

abbrev pub id_of : String × WorkflowJob → String
id_of (id, j) = id

abbrev pub ids_of : Jobs → List String
ids_of = map id_of

abbrev pub first_search : (List String → List String) → Jobs → Graph → Search
first_search visit jobs g = record {
  depth = g.depth;
  indeg = g.indeg;
  queue = queue_zeros g.indeg (visit (ids_of jobs));
}

-- `visit` is the order of the loop on `indeg`. A round takes a job from the queue, so as many rounds as
-- there are jobs are enough.
unfoldable pub topo_depth : (List String → List String) → Jobs → Option ((String → ℕ) × Bool)
unfolding build_graph queue_zeros search
topo_depth visit jobs =
    let g = build_graph jobs empty_graph in
    let k = first_search visit jobs g in depths_of jobs (search (length jobs) g.rev 0 k k.queue)
