-- ===== src/Server/TotalStorage.antt =====
-- The total storage in the answers of cmd/main.go: it is sent with the first answer and when it changed.
use gpu_metric_collector.Base.{
  ◌≡◌, refl, sym, ◌∙◌, true, false, List, [], ◌∷◌, if◌then◌else◌, arith, inl, inr, Bool-cases,
}
use gpu_metric_collector.Base.Int.{ℤ, pos, eq_of_parts}
use gpu_metric_collector.Grpcs.{GrpcNode}
use gpu_metric_collector.Server.{Server, NodeMessage, differs, get_node}

differs_lem : (a b : ℤ) → differs a b ≡ false → a ≡ b
unfolding differs
differs_lem a b h = eq_of_parts a b (ground arith)

differs_self : (a : ℤ) → differs a a ≡ false
unfolding differs
differs_self a = ground arith

-- What a client knows after an answer: 0 means that the total is what it was.
unfoldable pub receive : NodeMessage → ℤ → ℤ
receive message view =
    if differs message.node_totalstorage (pos 0) then message.node_totalstorage else view

get_node-receive :
    (s : Server) (view : ℤ)
    → s.prev_node_storage ≡ view
    → differs s.node.total_storage (pos 0) ≡ true
    → receive (get_node s).0 view ≡ s.node.total_storage
unfolding receive get_node
get_node-receive s view h nonzero =
    elim (Bool-cases (differs s.prev_node_storage s.node.total_storage)) [
      | inl d ↦ rw (d, nonzero) refl
      | inr d ↦
          rw (d, differs_self (pos 0))
            (sym h ∙ differs_lem s.prev_node_storage s.node.total_storage d)
    ]

-- One client that asks after each write of the node's metrics.
unfoldable pub polls : List GrpcNode → Server → ℤ → Server × ℤ
polls [] s view = (s, view)
polls (node ∷ nodes) s view =
    let (message, s') = get_node (record s { node = node }) in polls nodes s' (receive message view)

abbrev pub HasTotals : List GrpcNode → Type 0
HasTotals [] = Unit {0}
HasTotals (node ∷ nodes) = (differs node.total_storage (pos 0) ≡ true) × HasTotals nodes

abbrev pub last_total : ℤ → List GrpcNode → ℤ
last_total total [] = total
last_total total (node ∷ nodes) = last_total node.total_storage nodes

polls_current :
    (nodes : List GrpcNode) (s : Server) (view known : ℤ)
    → s.prev_node_storage ≡ known
    → view ≡ known
    → HasTotals nodes
    → ((polls nodes s view).1 ≡ last_total known nodes)
      × ((polls nodes s view).0.prev_node_storage ≡ last_total known nodes)
unfolding polls
polls_current [] s view known h v totals = (v, h)
polls_current (node ∷ nodes) s view known h v (total, totals) =
    polls_current nodes (get_node (record s { node = node })).1
      (receive (get_node (record s { node = node })).0 view) node.total_storage
      (unfold get_node in refl) (get_node-receive (record s { node = node }) view (h ∙ sym v) total)
      totals

-- A client that knows the total that was sent last, and is the only one that asks, knows the node's
-- current total after each answer, as long as the totals are not 0.
pub polls-last_total :
    (nodes : List GrpcNode) (s : Server) (view : ℤ)
    → s.prev_node_storage ≡ view
    → HasTotals nodes
    → ((polls nodes s view).1 ≡ last_total view nodes)
      × ((polls nodes s view).0.prev_node_storage ≡ last_total view nodes)
polls-last_total nodes s view h totals = polls_current nodes s view view h refl totals

-- The second of two requests for the same metrics never carries the total: what was sent is remembered
-- for the server and not for each client, so that another client keeps what it knew.
pub get_node-twice : (s : Server) (view : ℤ) → receive (get_node (get_node s).1).0 view ≡ view
unfolding receive get_node
get_node-twice s view = rw (differs_self s.node.total_storage, differs_self (pos 0)) refl
