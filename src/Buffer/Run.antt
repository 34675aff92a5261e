-- ===== src/Buffer/Run.antt =====
-- A buffer against the byte queue that it implements: any sequence of calls.
use mynuduo.Base.{
  ℕ, ◌+◌, ◌≤◌, ◌≡◌, ◌++◌, List, [], ◌∷◌, length, take, drop, max_size, refl, sym, ap, ap₂, ◌∙◌,
}
use mynuduo.Buffer.{
  Buffer, ReadResult, received, read_failed, IsValid, contents, readable_bytes, append, retrieve,
  retrieve_all, reteieve_as_string, retrieve_all_as_string, read_fd, read_limit, extra_size,
}
use mynuduo.Buffer.Space.{length-contents}
use mynuduo.Buffer.Append.{append-Appended, read_fd-Appended}
use mynuduo.Buffer.Retrieve.{
  retrieve-Retrieved, retrieve_all_lem, reteieve_as_string_lem, retrieve_all_as_string_lem,
}

-- `reads r` is `readFd` where `readv` gives `r`.
pub data Op : Type 0 where
  puts : List ℕ → Op
  reads : ReadResult → Op
  skips : ℕ → Op
  takes : ℕ → Op
  takes_all : Op
  clears : Op
  asks : Op

-- What a call returns.
pub data Answer : Type 0 where
  text : List ℕ → Answer
  size : ℕ → Answer
  result : ReadResult → Answer

-- What the calls return, in order.
pub run : Buffer → List Op → List Answer
run b [] = []
run b (puts d ∷ ops) = run (append b d) ops
run b (reads r ∷ ops) = let out = read_fd b (λ room. r) in result out.0 ∷ run out.1 ops
run b (skips n ∷ ops) = run (retrieve b n) ops
run b (takes n ∷ ops) = let out = reteieve_as_string b n in text out.0 ∷ run out.1 ops
run b (takes_all ∷ ops) = let out = retrieve_all_as_string b in text out.0 ∷ run out.1 ops
run b (clears ∷ ops) = run (retrieve_all b) ops
run b (asks ∷ ops) = size (readable_bytes b) ∷ run b ops

-- The same calls on a queue of bytes, oldest first.
pub run_queue : List ℕ → List Op → List Answer
run_queue q [] = []
run_queue q (puts d ∷ ops) = run_queue (q ++ d) ops
run_queue q (reads (received d) ∷ ops) = result (received d) ∷ run_queue (q ++ d) ops
run_queue q (reads (read_failed e) ∷ ops) = result (read_failed e) ∷ run_queue q ops
run_queue q (skips n ∷ ops) = run_queue (drop n q) ops
run_queue q (takes n ∷ ops) = text (take n q) ∷ run_queue (drop n q) ops
run_queue q (takes_all ∷ ops) = text q ∷ run_queue [] ops
run_queue q (clears ∷ ops) = run_queue [] ops
run_queue q (asks ∷ ops) = size (length q) ∷ run_queue q ops

-- What a call relies on: the vector does not become larger than a vector can be, `readv` gives no more
-- than it was offered room for, and no more bytes are taken as a text than there are.
abbrev pub Fits : Op → Buffer → Type 0
Fits (puts d) b = length d + b.writer ≤ max_size
Fits (reads (received d)) b = (length d ≤ read_limit b) × (length b.bytes + extra_size ≤ max_size)
Fits (reads (read_failed e)) b = Unit {0}
Fits (skips n) b = Unit {0}
Fits (takes n) b = n ≤ readable_bytes b
Fits takes_all b = Unit {0}
Fits clears b = Unit {0}
Fits asks b = Unit {0}

-- The buffer that a call leaves.
abbrev pub left_by : Op → Buffer → Buffer
left_by (puts d) b = append b d
left_by (reads r) b = (read_fd b (λ room. r)).1
left_by (skips n) b = retrieve b n
left_by (takes n) b = (reteieve_as_string b n).1
left_by takes_all b = (retrieve_all_as_string b).1
left_by clears b = retrieve_all b
left_by asks b = b

-- Every call fits where the calls before it have left the buffer.
abbrev pub AllFit : List Op → Buffer → Type 0
AllFit [] b = Unit {0}
AllFit (op ∷ ops) b = Fits op b × AllFit ops (left_by op b)

-- No sequence of calls of `append`, `readFd`, `retrieve`, `reteieveAsString`, `retrieveAllAsString`,
-- `retrieveAll` and `readableBytes` tells a valid buffer from the queue of its unread bytes, as long as
-- the vector does not become larger than a vector can be, `readv` gives no more than it was offered
-- room for, and `reteieveAsString` is asked for no more than there is.
pub run-run_queue :
    (ops : List Op) {b : Buffer} → IsValid b → AllFit ops b → run b ops ≡ run_queue (contents b) ops
unfolding run run_queue read_fd
run-run_queue [] v h = refl
run-run_queue (puts d ∷ ops) {b} v (fit, h) =
    let a = append-Appended d v fit in
    run-run_queue ops a.valid h ∙ ap (λ q. run_queue q ops) a.bytes
run-run_queue (reads (received d) ∷ ops) {b} v ((part, room), h) =
    let a = read_fd-Appended (λ r. received d) d v refl part room in
    ap (◌∷◌ (result (received d))) (run-run_queue ops a.valid h ∙ ap (λ q. run_queue q ops) a.bytes)
run-run_queue (reads (read_failed e) ∷ ops) {b} v (fit, h) =
    ap (◌∷◌ (result (read_failed e))) (run-run_queue ops v h)
run-run_queue (skips n ∷ ops) {b} v (fit, h) =
    let r = retrieve-Retrieved n v in
    run-run_queue ops r.valid h ∙ ap (λ q. run_queue q ops) r.bytes
run-run_queue (takes n ∷ ops) {b} v (fit, h) =
    let (same, r) = reteieve_as_string_lem n v fit in
    ap₂ (λ t l. text t ∷ l) same (run-run_queue ops r.valid h ∙ ap (λ q. run_queue q ops) r.bytes)
run-run_queue (takes_all ∷ ops) {b} v (fit, h) =
    let (same, r, empty) = retrieve_all_as_string_lem v in
    ap₂ (λ t l. text t ∷ l) same (run-run_queue ops r.valid h ∙ ap (λ q. run_queue q ops) empty)
run-run_queue (clears ∷ ops) {b} v (fit, h) =
    let (valid, empty) = retrieve_all_lem v in
    run-run_queue ops valid h ∙ ap (λ q. run_queue q ops) empty
run-run_queue (asks ∷ ops) {b} v (fit, h) =
    ap₂ (λ n l. size n ∷ l) (sym (length-contents v)) (run-run_queue ops v h)
