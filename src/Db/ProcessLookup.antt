-- ===== src/Db/ProcessLookup.antt =====
-- StoreProcess, UpdateProcessStatus and the reads by id.
use ovote_node.Base.{
  ℕ, ◌<◌, ◌≡◌, refl, ◌++◌, [], ◌∷◌, List, false, ok, ◌>>=◌, ◌==◌, if◌then◌else◌, find, any,
  any_of_find, Option-cases, inl, inr, arith, two63, none, some, Bytes,
}
use ovote_node.Types.Process.{Process, ProcessStatus}
use ovote_node.Db.Schema.{Sqlite, ProcessRow, bind_uint64}
use ovote_node.Db.Processes.{
  has_id, new_process, scan_process, read_process_by_id, store_process, update_process_status,
  get_process_status,
}
use ovote_node.Db.Invariant.{KnownProcess}
use ovote_node.Db.Query.{update_where}
use ovote_node.Db.Writes.{store_process-eq_ok, update_process_status-eq_ok}

find-snoc :
    (j : ℕ) (rs : List ProcessRow) (r : ProcessRow)
    → any (has_id r.id) rs ≡ false
    → find (has_id j) (rs ++ r ∷ []) ≡ (if j == r.id then some r else find (has_id j) rs)
find-snoc j [] r h = ground arith
find-snoc j (q ∷ rs) r h = ground (arith, find-snoc j rs r)

-- A process that is stored is read back with every value that was given, as On; every other id
-- reads as before.
pub store_process-read :
    (now id : ℕ) (root : Bytes) (size block start window participation positive typ j : ℕ)
    (s : Sqlite) {s' : Sqlite}
    → store_process now id root size block start window participation positive typ s ≡ ok s'
    → read_process_by_id j s' ≡ (
        if j == id
        then ok (
            scan_process
              (new_process now id root size block start window participation positive typ))
        else read_process_by_id j s)
unfolding read_process_by_id bind_uint64
store_process-read now id root size block start window participation positive typ j s e =
    let (fresh, small, _, final) =
      store_process-eq_ok now id root size block start window participation positive typ s e in
    let row = new_process now id root size block start window participation positive typ in
    rw final (ground (arith, find-snoc j s.processes row fresh))

find-update_status :
    (id j : ℕ) (st : ProcessStatus) (rs : List ProcessRow)
    → find (has_id j) (update_where (has_id id) (λ r. record r { status = st }) rs)
      ≡ elim (find (has_id j) rs) [
        | none ↦ none
        | some r ↦ some (if j == id then record r { status = st } else r)
      ]
unfolding update_where
find-update_status id j st [] = refl
find-update_status id j st (r ∷ rs) = ground (arith, find-update_status id j st rs)

-- UpdateProcessStatus sets the status of the process with the given id and of no other, and
-- succeeds, changing nothing, where no process has the id.
update_process_status-get :
    (id j : ℕ) (st : ProcessStatus) (s : Sqlite) {s' : Sqlite}
    → update_process_status id st s ≡ ok s'
    → get_process_status j s' ≡ (get_process_status j s >>= λ old. ok (if j == id then st else old))
unfolding get_process_status
update_process_status-get id j st s e =
    ground (arith, update_process_status-eq_ok id st s e, find-update_status id j st s.processes)

find-known :
    (id : ℕ) (s : Sqlite) {p : Process}
    → read_process_by_id id s ≡ ok p
    → (id < two63) × ((r : ProcessRow) × (find (has_id id) s.processes ≡ some r))
unfolding read_process_by_id bind_uint64
find-known id s e = elim (Option-cases (find (has_id id) s.processes)) [
  | inl missing ↦ absurd (ground arith)
  | inr (r, found) ↦ (ground arith, (r, found))
]

-- A process that can be read is stored, and its id fits an int64.
pub read-KnownProcess :
    (id : ℕ) (s : Sqlite) {p : Process}
    → read_process_by_id id s ≡ ok p
    → (id < two63) × KnownProcess s.processes id
read-KnownProcess id s e =
    let (small, (r, found)) = find-known id s e in
    (small, any_of_find (has_id id) s.processes found)

-- Storing a process changes nothing of those that are stored.
pub store_process-keeps :
    (now id : ℕ) (root : Bytes) (size block start window participation positive typ j : ℕ)
    (s : Sqlite) {s' : Sqlite} {p : Process}
    → read_process_by_id j s ≡ ok p
    → store_process now id root size block start window participation positive typ s ≡ ok s'
    → read_process_by_id j s' ≡ ok p
store_process-keeps now id root size block start window participation positive typ j s r e =
    ground (
      arith,
      read-KnownProcess j s r,
      store_process-eq_ok now id root size block start window participation positive typ s e,
      store_process-read now id root size block start window participation positive typ j s e,
    )
