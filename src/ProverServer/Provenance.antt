-- ===== src/ProverServer/Provenance.antt =====
-- Where the proofs in the directory of the prover's server come from.
use ovote_node.Base.{
  ℕ, ◌≡◌, [], ◌∷◌, ◌++◌, List, Bytes, Option, none, some, Result, ok, err, panic, All, All-map,
  ◌==◌, inl, inr, Bool-cases, get_elem?, set, zero, suc, arith, refl, subst,
}
use ovote_node.ProverServer.System.{
  Thread, Handler, of_handler, of_goroutine, Shared, Tools, Move, System, Reach, pick, begun,
  arrives, restarted, later, after_bind, read_file, write, run_on, load_id, store_id, check,
  bind_body, name_file, write_file, write_fails, start, reply, lock, make_witness, make_proof,
  unlock,
}

-- A file that was written under an id, and perhaps replaced later.
pub data Written {ℓ} {A : Type ℓ} (n : ℕ) (file : A) : List (ℕ × A) → Type ℓ where
  newest : {files : List (ℕ × A)} → Written n file ((n, file) ∷ files)
  older :
      {other : ℕ × A} {files : List (ℕ × A)} → Written n file files → Written n file (other ∷ files)

-- What can be read under an id was written under it.
pub read_file-Written {ℓ} :
    {A : Type ℓ} (n : ℕ) (files : List (ℕ × A)) {file : A}
    → read_file n files ≡ some file
    → Written n file files
read_file-Written n [] e = absurd cc
read_file-Written n ((m, old) ∷ files) {file} e = elim (Bool-cases (m == n)) [
  | inl same ↦
      let here : m ≡ n = ground arith in
      let value : old ≡ file = ground arith in rw (here, value) newest
  | inr other ↦ older (read_file-Written n files (ground arith))
]

All-Written {ℓ κ} :
    {A : Type ℓ} (P : ℕ × A → Type κ) (n : ℕ) {file : A} (files : List (ℕ × A))
    → All P files
    → Written n file files
    → P (n, file)
All-Written P n [] h w = elim w [ ]
All-Written P n (_ ∷ files) (here, rest) newest = here
All-Written P n (_ ∷ files) (here, rest) (older w) = All-Written P n files rest w

pub All-append {ℓ κ} :
    {A : Type ℓ} (P : A → Type κ) (xs ys : List A) → All P xs → All P ys → All P (xs ++ ys)
All-append P [] ys h k = k
All-append P (a ∷ xs) ys (h, hs) k = (h, All-append P xs ys hs k)

All-get {ℓ κ} :
    {A : Type ℓ} (P : A → Type κ) (xs : List A) (i : ℕ) {a : A}
    → All P xs
    → get_elem? xs i ≡ some a
    → P a
All-get P [] i h e = absurd cc
All-get P (x ∷ xs) zero {a} (h, hs) e = let same : x ≡ a = cc in subst P same h
All-get P (a ∷ xs) (suc i) (h, hs) e = All-get P xs i hs e

All-set {ℓ κ} :
    {A : Type ℓ} (P : A → Type κ) (xs : List A) (i : ℕ) (a : A)
    → All P xs
    → P a
    → All P (set xs i a)
All-set P [] i a h new = tt
All-set P (_ ∷ xs) zero a (h, hs) new = (new, hs)
All-set P (_ ∷ xs) (suc i) a (h, hs) new = (h, All-set P xs i a hs new)

-- What a command writes comes from the file that it reads.
run_on-eq_some {ℓ κ} :
    {A : Type ℓ} {B : Type κ} (command : A → Option B) (r : Option A) {b : B}
    → run_on command r ≡ some b
    → (a : A) × (r ≡ some a) × (command a ≡ some b)
run_on-eq_some command none h = absurd cc
run_on-eq_some command (some a) h = (a, refl, h)

-- What is written with the result of a command keeps what holds of the files.
All-write {ℓ κ} :
    {A : Type ℓ} (P : ℕ × A → Type κ) (n : ℕ) (made : Option A) (files : List (ℕ × A))
    → ((file : A) → made ≡ some file → P (n, file))
    → All P files
    → All P (write n made files)
All-write P n none files new old = old
All-write P n (some file) files new old = (new file refl, old)

module _ (tools : Tools) where
  -- The file of the inputs is the body of some request.
  abbrev pub FromBody : ℕ × Bytes → Type 0
  FromBody input = (body : Bytes) × (tools.bind body ≡ ok input.1)

  -- A witness was generated from a file of inputs that was written under the same id.
  abbrev pub Generated : List (ℕ × Bytes) → ℕ × Bytes → Type 0
  Generated inputs w =
      (body : Bytes) × (file : Bytes) × (tools.bind body ≡ ok file)
      × Written w.0 file inputs
      × (tools.generate_witness file ≡ some w.1)

  -- The two files of a proof were made from such a witness.
  abbrev pub Made : List (ℕ × Bytes) → ℕ × (Bytes × Bytes) → Type 0
  Made inputs p =
      (witness : Bytes) × Generated inputs (p.0, witness) × (tools.prove witness ≡ some p.1)

  pub record IsSound (a : Shared) : Type 0 where
    pub inputs : All FromBody a.inputs
    pub witnesses : All (Generated a.inputs) a.witnesses
    pub proofs : All (Made a.inputs) a.proofs

  -- The file that a handler holds is the body of a request.
  abbrev Holds : Thread → Type 0
  Holds (Thread.handler (Handler.bound file b)) = (body : Bytes) × (tools.bind body ≡ ok file)
  Holds (Thread.handler (Handler.named file b n)) = (body : Bytes) × (tools.bind body ≡ ok file)
  Holds (Thread.handler (Handler.received z)) = Unit
  Holds (Thread.handler (Handler.read_id z n)) = Unit
  Holds (Thread.handler (Handler.counted z)) = Unit
  Holds (Thread.handler (Handler.checked z b)) = Unit
  Holds (Thread.handler (Handler.stored b)) = Unit
  Holds (Thread.handler (Handler.started b)) = Unit
  Holds (Thread.handler (Handler.replied b n)) = Unit
  Holds (Thread.handler (Handler.failed b)) = Unit
  Holds (Thread.goroutine g) = Unit

  -- Another file of inputs leaves what was made from the earlier ones.
  older_witness :
      {input : ℕ × Bytes} {inputs : List (ℕ × Bytes)} {w : ℕ × Bytes}
      → Generated inputs w
      → Generated (input ∷ inputs) w
  older_witness (body, file, bound, written, made) = (body, file, bound, older written, made)

  older_proof :
      {input : ℕ × Bytes} {inputs : List (ℕ × Bytes)} {p : ℕ × (Bytes × Bytes)}
      → Made inputs p
      → Made (input ∷ inputs) p
  older_proof (w, generated, made) = (w, older_witness generated, made)

  Move-IsSound :
      {a a' : Shared} {p p' : Thread} {new : List Thread}
      → Move tools a p a' p' new
      → Holds p
      → IsSound a
      → IsSound a' × Holds p' × All Holds new
  Move-IsSound (of_handler load_id) h s = (s, tt, tt)
  Move-IsSound (of_handler store_id) h s =
      (record { inputs = s.inputs; witnesses = s.witnesses; proofs = s.proofs }, tt, tt)
  Move-IsSound (of_handler check) h s = (s, tt, tt)
  Move-IsSound (of_handler (bind_body {z} {b})) h s = (s, bound (tools.bind z) refl, tt)
    where
      bound : (r : Result Bytes) → tools.bind z ≡ r → Holds (Thread.handler (after_bind r b))
      bound (ok file) e = (z, e)
      bound (err x) e = tt
      bound panic e = tt
  Move-IsSound (of_handler name_file) h s = (s, h, tt)
  Move-IsSound {a} (of_handler (write_file {file})) h s = (
    record {
      inputs = (h, s.inputs);
      witnesses = All-map _ _ (λ w made. older_witness made) a.witnesses s.witnesses;
      proofs = All-map _ _ (λ p made. older_proof made) a.proofs s.proofs;
    },
    tt,
    tt,
  )
  Move-IsSound (of_handler write_fails) h s = (s, tt, tt)
  Move-IsSound (of_handler start) h s = (s, tt, (tt, tt))
  Move-IsSound (of_handler reply) h s = (s, tt, tt)
  Move-IsSound (of_goroutine (lock free)) h s =
      (record { inputs = s.inputs; witnesses = s.witnesses; proofs = s.proofs }, tt, tt)
  Move-IsSound {a} (of_goroutine (make_witness {n})) h s = (
    record {
      inputs = s.inputs;
      witnesses =
          All-write (Generated a.inputs) n (run_on tools.generate_witness (read_file n a.inputs))
            a.witnesses
            (λ w e.
              let (file, there, made) = run_on-eq_some tools.generate_witness _ e in
              let written = read_file-Written n a.inputs there in
              let (body, bound) = All-Written FromBody n a.inputs s.inputs written in
              (body, file, bound, written, made))
            s.witnesses;
      proofs = s.proofs;
    },
    tt,
    tt,
  )
  Move-IsSound {a} (of_goroutine (make_proof {n})) h s = (
    record {
      inputs = s.inputs;
      witnesses = s.witnesses;
      proofs =
          All-write (Made a.inputs) n (run_on tools.prove (read_file n a.witnesses)) a.proofs
            (λ p e.
              let (w, there, made) = run_on-eq_some tools.prove _ e in
              let written = read_file-Written n a.witnesses there in
              (w, All-Written (Generated a.inputs) n a.witnesses s.witnesses written, made))
            s.proofs;
    },
    tt,
    tt,
  )
  Move-IsSound (of_goroutine unlock) h s =
      (record { inputs = s.inputs; witnesses = s.witnesses; proofs = s.proofs }, tt, tt)

  pub Reach-IsSound : {s : System} → Reach tools s → IsSound s.shared × All Holds s.threads
  Reach-IsSound begun = (record { inputs = tt; witnesses = tt; proofs = tt }, tt)
  Reach-IsSound (arrives {s} body r) =
      let (sound, holds) = Reach-IsSound r in (sound, All-append Holds s.threads _ holds (tt, tt))
  Reach-IsSound (restarted r) =
      let sound = (Reach-IsSound r).0 in
      (record { inputs = sound.inputs; witnesses = sound.witnesses; proofs = sound.proofs }, tt)
  Reach-IsSound (later {s = s} (pick i {p} {p'} at mv) r) =
      let (sound, holds) = Reach-IsSound r in
      let (sound', holds', new) = Move-IsSound mv (All-get Holds s.threads i holds at) sound in
      (sound', All-append Holds _ _ (All-set Holds s.threads i p' holds holds') new)

  pub proofs-Made :
      {s : System} (n : ℕ) {files : Bytes × Bytes}
      → Reach tools s
      → read_file n s.shared.proofs ≡ some files
      → Made s.shared.inputs (n, files)
  proofs-Made {s} n r e =
      All-Written (Made s.shared.inputs) n s.shared.proofs (Reach-IsSound r).0.proofs
        (read_file-Written n s.shared.proofs e)
