-- ===== src/Db/Integrity.antt =====
-- The statements of the package against the integrity of the tables.
use ovote_node.Base.{
  All-map, ℤ, ◌++◌, [], ◌∷◌, ℕ, ◌<◌, ◌≤◌, ◌+◌, ◌≡◌, List, Bool, ◌∙◌, ok, All, arith, two63,
  All-snoc, sym, subst, Bytes, refl, int64, ◌==◌,
}
use ovote_node.Types.Process.{ProcessStatus}
use ovote_node.Db.Schema.{Sqlite, ProcessRow, VoteRow, ProofRow, MetaRow, migrate}
use ovote_node.Db.Processes.{
  has_id, store_process, update_process_status, froze_processes_by_current_block_num, is_due, froze,
}
use ovote_node.Db.VotePackages.{collides, insert_vote}
use ovote_node.Db.Proofs.{store_proof_id, add_proof_to_proof_id, is_proof}
use ovote_node.Db.Meta.{init_meta, update_last_sync_block_num}
use ovote_node.Db.Query.{update_where}
use ovote_node.Db.Invariant.{
  IsValid, Distinct, same_meta_id, same_meta_id_sym, fresh_meta_id, same_id, same_id_sym,
  same_proofid, same_proofid_sym, collides_sym, KnownProcess, KnownProcess-append, Distinct-snoc,
  Distinct-update_where, any-update_where, All-update_where,
}
use ovote_node.Db.Writes.{
  insert_vote-eq_ok, store_process-eq_ok, update_process_status-eq_ok, froze-eq_ok,
  add_proof_to_proof_id-eq_ok, init_meta-eq_ok, update_last_sync_block_num-eq_ok,
  store_proof_id-eq_ok,
}

pub migrate-IsValid : IsValid migrate
unfolding migrate
migrate-IsValid = record {
  ids = tt;
  small_ids = tt;
  votes = tt;
  voted = tt;
  proof_ids = tt;
  proved = tt;
  meta_ids = tt;
  seq = tt;
}

pub insert_vote-IsValid :
    (row : VoteRow) (s : Sqlite) {s' : Sqlite} → insert_vote row s ≡ ok s' → IsValid s → IsValid s'
insert_vote-IsValid row s e v =
    let (fresh, known, final) = insert_vote-eq_ok row s e in
    subst IsValid (sym final) (record {
      ids = v.ids;
      small_ids = v.small_ids;
      votes = Distinct-snoc collides s.votepackages row collides_sym v.votes fresh;
      voted =
          All-snoc (λ (r : VoteRow). KnownProcess s.processes r.process_id) known s.votepackages
            v.voted;
      proof_ids = v.proof_ids;
      proved = v.proved;
      meta_ids = v.meta_ids;
      seq = v.seq;
    })

-- Replacing the processes by rows that know as many ids keeps the other tables sound.
with_processes :
    (s : Sqlite) (ps : List ProcessRow)
    → Distinct same_id ps
    → All (λ (r : ProcessRow). r.id < two63) ps
    → ((id : ℕ) → KnownProcess s.processes id → KnownProcess ps id)
    → IsValid s
    → IsValid (record s { processes = ps })
with_processes s ps d small known v = record {
  ids = d;
  small_ids = small;
  votes = v.votes;
  voted =
      All-map (λ (r : VoteRow). KnownProcess s.processes r.process_id)
        (λ (r : VoteRow). KnownProcess ps r.process_id) (λ r. known r.process_id) s.votepackages
        v.voted;
  proof_ids = v.proof_ids;
  proved =
      All-map (λ (r : ProofRow). KnownProcess s.processes r.process_id)
        (λ (r : ProofRow). KnownProcess ps r.process_id) (λ r. known r.process_id) s.proofs
        v.proved;
  meta_ids = v.meta_ids;
  seq = v.seq;
}

pub store_process-IsValid :
    (now id : ℕ) (root : Bytes) (size block start window participation positive typ : ℕ)
    (s : Sqlite) {s' : Sqlite}
    → store_process now id root size block start window participation positive typ s ≡ ok s'
    → IsValid s
    → IsValid s'
store_process-IsValid now id root size block start window participation positive typ s e v =
    let (fresh, small, _, final) =
      store_process-eq_ok now id root size block start window participation positive typ s e in
    subst IsValid (sym final) (
      with_processes s _ (Distinct-snoc same_id s.processes _ same_id_sym v.ids fresh)
        (All-snoc (λ (r : ProcessRow). r.id < two63) small s.processes v.small_ids)
        (KnownProcess-append s.processes _) v)

-- An UPDATE of `processes` that leaves the ids.
update_processes-IsValid :
    (p : ProcessRow → Bool) (f : ProcessRow → ProcessRow) (s : Sqlite)
    → ((r : ProcessRow) → (f r).id ≡ r.id)
    → IsValid s
    → IsValid (record s { processes = update_where p f s.processes })
update_processes-IsValid p f s same v =
    with_processes s (update_where p f s.processes)
      (Distinct-update_where p f same_id (λ x y. ground (arith, same x))
        (λ x y. ground (arith, same y)) s.processes v.ids)
      (All-update_where p f (λ r. r.id < two63) (λ r h. omega (arith, same r)) s.processes
        v.small_ids)
      (λ id known.
        any-update_where p f (has_id id) (λ r. ground (arith, same r)) s.processes ∙ known)
      v

pub update_process_status-IsValid :
    (id : ℕ) (status : ProcessStatus) (s : Sqlite) {s' : Sqlite}
    → update_process_status id status s ≡ ok s'
    → IsValid s
    → IsValid s'
update_process_status-IsValid id status s e v =
    subst IsValid (sym (update_process_status-eq_ok id status s e))
      (update_processes-IsValid (has_id id) (λ r. record r { status = status }) s (λ r. refl) v)

pub froze-IsValid :
    (block : ℕ) (s : Sqlite) {s' : Sqlite}
    → froze_processes_by_current_block_num block s ≡ ok s'
    → IsValid s
    → IsValid s'
froze-IsValid block s e v =
    subst IsValid (sym (froze-eq_ok block s e))
      (update_processes-IsValid (is_due (int64 block)) froze s (λ r. refl) v)

-- Replacing the proofs.
with_proofs :
    (s : Sqlite) (ps : List ProofRow)
    → Distinct same_proofid ps
    → All (λ (r : ProofRow). KnownProcess s.processes r.process_id) ps
    → IsValid s
    → IsValid (record s { proofs = ps })
with_proofs s ps d known v = record {
  ids = v.ids;
  small_ids = v.small_ids;
  votes = v.votes;
  voted = v.voted;
  proof_ids = d;
  proved = known;
  meta_ids = v.meta_ids;
  seq = v.seq;
}

pub store_proof_id-IsValid :
    (now process_id proof_id : ℕ) (s : Sqlite) {s' : Sqlite}
    → store_proof_id now process_id proof_id s ≡ ok s'
    → IsValid s
    → IsValid s'
store_proof_id-IsValid now process_id proof_id s e v =
    let (fresh, known, final) = store_proof_id-eq_ok now process_id proof_id s e in
    subst IsValid (sym final) (
      with_proofs s _ (Distinct-snoc same_proofid s.proofs _ same_proofid_sym v.proof_ids fresh)
        (All-snoc (λ (r : ProofRow). KnownProcess s.processes r.process_id) known s.proofs v.proved)
        v)

pub add_proof_to_proof_id-IsValid :
    (now process_id proof_id : ℕ) (proof public_inputs : Bytes) (s : Sqlite) {s' : Sqlite}
    → add_proof_to_proof_id now process_id proof_id proof public_inputs s ≡ ok s'
    → IsValid s
    → IsValid s'
add_proof_to_proof_id-IsValid now process_id proof_id proof public_inputs s e v =
    let p = is_proof process_id proof_id in
    let f : ProofRow → ProofRow =
      λ r. record r { proof = proof; public_inputs = public_inputs; proof_added_datetime = now } in
    subst IsValid
      (sym (add_proof_to_proof_id-eq_ok now process_id proof_id proof public_inputs s e))
      (with_proofs s (update_where p f s.proofs)
        (Distinct-update_where p f same_proofid (λ x y. refl) (λ x y. refl) s.proofs v.proof_ids)
        (All-update_where p f (λ r. KnownProcess s.processes r.process_id) (λ r h. h) s.proofs
          v.proved)
        v)

with_meta :
    (s : Sqlite) (m : List MetaRow) (n : ℕ)
    → Distinct same_meta_id m
    → All (λ (r : MetaRow). r.id ≤ n) m
    → IsValid s
    → IsValid (record s { meta = m; meta_seq = n })
with_meta s m n distinct h v = record {
  ids = v.ids;
  small_ids = v.small_ids;
  votes = v.votes;
  voted = v.voted;
  proof_ids = v.proof_ids;
  proved = v.proved;
  meta_ids = distinct;
  seq = h;
}

pub init_meta-IsValid :
    (now chain_id block : ℕ) (s : Sqlite) {s' : Sqlite}
    → init_meta now chain_id block s ≡ ok s'
    → IsValid s
    → IsValid s'
init_meta-IsValid now chain_id block s e v =
    let row : MetaRow = record {
      id = s.meta_seq + 1;
      chain_id = chain_id;
      last_sync_block_num = ℤ.pos block;
      last_update = now;
    } in
    subst IsValid (sym (init_meta-eq_ok now chain_id block s e)) (
      with_meta s (s.meta ++ row ∷ []) (s.meta_seq + 1)
        (Distinct-snoc same_meta_id s.meta row same_meta_id_sym v.meta_ids
          (fresh_meta_id s.meta_seq row s.meta (omega arith) v.seq))
        (All-snoc (λ (r : MetaRow). r.id ≤ s.meta_seq + 1) (omega arith) s.meta
          (All-map (λ (r : MetaRow). r.id ≤ s.meta_seq) (λ (r : MetaRow). r.id ≤ s.meta_seq + 1)
            (λ r h. omega arith) s.meta v.seq))
        v)

pub update_last_sync_block_num-IsValid :
    (n : ℕ) (s : Sqlite) {s' : Sqlite}
    → update_last_sync_block_num n s ≡ ok s'
    → IsValid s
    → IsValid s'
update_last_sync_block_num-IsValid n s e v =
    subst IsValid (sym (update_last_sync_block_num-eq_ok n s e)) (
      with_meta s _ s.meta_seq
        (Distinct-update_where (λ r. r.id == 1) (λ r. record r { last_sync_block_num = int64 n })
          same_meta_id (λ x y. refl) (λ x y. refl) s.meta v.meta_ids)
        (All-update_where (λ r. r.id == 1) (λ r. record r { last_sync_block_num = int64 n })
          (λ (r : MetaRow). r.id ≤ s.meta_seq) (λ r h. h) s.meta v.seq)
        v)
