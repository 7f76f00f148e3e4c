-- ===== src/Pipe/Sound.antt =====
-- What every step of devpipe_read and devpipe_write of tp-parte4/lib/pipe.c keeps of the pipe.
use sistemas_operativos_2c.Common.{
  append_assoc, ℕ, zero, suc, ◌+◌, ◌-◌, ◌%◌, ◌<◌, ◌≤◌, ◌≡◌, refl, Bool, List, [], ◌∷◌, ◌++◌, length,
  get_elem?, some, update, update_self, update_ne, ltb, leb, ◌==◌, Bool-cases, Option-cases, inl,
  inr, arith, ap, sym, ◌∙◌, subst,
}
use mathlib.Core.Path.{ap₂}
use sistemas_operativos_2c.Pipe.{
  Pipe, Reader, Writer, read, read_test, read_byte, wrote, write_test, write_byte, devpipe_read,
  devpipe_write,
}

-- The bytes of the buffer from a position on.
abbrev pub bytes : ℕ → ℕ → (ℕ → ℕ) → List ℕ
bytes zero pos buf = []
bytes (suc c) pos buf = buf (pos % 32) ∷ bytes c (pos + 1) buf

bytes-update :
    (c k pos v : ℕ) (buf : ℕ → ℕ)
    → c ≤ k
    → k < 32
    → bytes c pos (update buf ((pos + k) % 32) v) ≡ bytes c pos buf
bytes-update zero k pos v buf lo hi = refl
bytes-update (suc c) zero pos v buf lo hi = absurd (omega arith)
bytes-update (suc c) (suc k) pos v buf lo hi =
    ap₂ ◌∷◌ (update_ne buf ((pos + suc k) % 32) v (pos % 32) (omega arith)) (
      subst (λ x. bytes c (pos + 1) (update buf (x % 32) v) ≡ bytes c (pos + 1) buf) (omega arith)
        (bytes-update c k (pos + 1) v buf (omega arith) (omega arith)))

bytes-append :
    (c pos : ℕ) (buf : ℕ → ℕ) → bytes (suc c) pos buf ≡ bytes c pos buf ++ buf ((pos + c) % 32) ∷ []
bytes-append zero pos buf = ap (λ (x : ℕ). buf (x % 32) ∷ []) (omega arith)
bytes-append (suc c) pos buf =
    ap (λ l. buf (pos % 32) ∷ l)
      (bytes-append c (pos + 1) buf
        ∙ ap (λ (x : ℕ). bytes c (pos + 1) buf ++ buf (x % 32) ∷ []) (omega arith))

-- The byte that a step adds to what the call has got, or put.
abbrev pub counted_read : Reader → List ℕ
counted_read (read_byte n buf byte) = byte ∷ []
counted_read r = []

abbrev pub counted_write : Writer → List ℕ
counted_write (write_byte buf i byte) = byte ∷ []
counted_write w = []

-- A byte that was taken is still in its place.
abbrev ReadIsKept : Pipe → Reader → Type 0
ReadIsKept p (read_byte n buf byte) = (byte ≡ p.p_buf (p.p_rpos % 32)) × (p.p_rpos < p.p_wpos)
ReadIsKept p r = Unit

-- Likewise one that is being put, which is the next one of the call's buffer.
abbrev pub WriteIsKept : Pipe → Writer → Type 0
WriteIsKept p (write_byte buf i byte) =
    (get_elem? buf i ≡ some byte) × (byte ≡ p.p_buf (p.p_wpos % 32)) × (p.p_wpos < p.p_rpos + 32)
WriteIsKept p w = Unit

abbrev pub pending : Pipe → List ℕ
pending p = bytes (p.p_wpos - p.p_rpos) p.p_rpos p.p_buf

pub record IsSound (p : Pipe) (r : Reader) (w : Writer) (received sent : List ℕ) : Type 0 where
  pub ordered : p.p_rpos ≤ p.p_wpos
  pub room : p.p_wpos ≤ p.p_rpos + 32
  pub fifo : received ++ pending p ≡ sent
  pub reading : ReadIsKept p r
  pub writing : WriteIsKept p w

pub append_nil : (l : List ℕ) → l ++ [] ≡ l
append_nil [] = refl
append_nil (x ∷ l) = ap (λ k. x ∷ k) (append_nil l)

pub with_reader :
    (p : Pipe) (r r' : Reader) (w : Writer) (received sent : List ℕ)
    → IsSound p r w received sent
    → ReadIsKept p r'
    → IsSound p r' w received sent
with_reader p r r' w received sent good kept = record {
  ordered = good.ordered;
  room = good.room;
  fifo = good.fifo;
  reading = kept;
  writing = good.writing;
}

pub with_writer :
    (p : Pipe) (r : Reader) (w w' : Writer) (received sent : List ℕ)
    → IsSound p r w received sent
    → WriteIsKept p w'
    → IsSound p r w' received sent
with_writer p r w w' received sent good kept = record {
  ordered = good.ordered;
  room = good.room;
  fifo = good.fifo;
  reading = good.reading;
  writing = kept;
}

WriteIsKept-read :
    (p : Pipe) (w : Writer) → WriteIsKept p w → WriteIsKept (record p { p_rpos = p.p_rpos + 1 }) w
WriteIsKept-read p (wrote x buf i) kept = tt
WriteIsKept-read p (write_test buf i) kept = tt
WriteIsKept-read p (write_byte buf i byte) kept = (kept.0, kept.1, omega (arith, kept.2))

-- The oldest pending byte and the others.
pending-head :
    (p : Pipe)
    → p.p_rpos < p.p_wpos
    → p.p_buf (p.p_rpos % 32) ∷ pending (record p { p_rpos = p.p_rpos + 1 }) ≡ pending p
pending-head p some_left =
    let size : suc (p.p_wpos - (p.p_rpos + 1)) ≡ p.p_wpos - p.p_rpos = omega (arith, some_left) in
    ap (λ (c : ℕ). bytes c p.p_rpos p.p_buf) size

-- A step of devpipe_read keeps the pipe sound.
pub reader-IsSound :
    (closed : Bool) (p : Pipe) (r : Reader) (w : Writer) (received sent : List ℕ)
    → IsSound p r w received sent
    → IsSound
        (devpipe_read closed p r).0
        (devpipe_read closed p r).1
        w
        (received ++ counted_read r)
        sent
unfolding devpipe_read
reader-IsSound closed p (read x buf) w received sent good = rw (append_nil received) good
reader-IsSound closed p (read_test n buf) w received sent good =
    rw (append_nil received) (elim (Bool-cases (leb n (length buf))) [
      | inl e ↦
          rw e (with_reader p (read_test n buf) (read (length buf) buf) w received sent good tt)
      | inr e ↦ elim (Bool-cases (p.p_rpos == p.p_wpos)) [
        | inl empty ↦ elim (Bool-cases (ltb 0 (length buf))) [
          | inl f ↦
              rw (e, empty, f)
                (with_reader p (read_test n buf) (read (length buf) buf) w received sent good tt)
          | inr f ↦ elim (Bool-cases closed) [
            | inl g ↦
                rw (e, empty, f, g)
                  (with_reader p (read_test n buf) (read 0 buf) w received sent good tt)
            | inr g ↦ rw (e, empty, f, g) good
          ]
        ]
        | inr full ↦
            rw (e, full)
              (with_reader p (read_test n buf) (read_byte n buf (p.p_buf (p.p_rpos % 32))) w
                received sent good (refl, ground (arith, full, good.ordered)))
      ]
    ])
reader-IsSound closed p (read_byte n buf byte) w received sent good = record {
  ordered = omega (arith, good.reading.1);
  room = omega (arith, good.room);
  fifo =
      append_assoc {0} received (byte ∷ []) (pending (record p { p_rpos = p.p_rpos + 1 }))
      ∙ ap (λ (x : ℕ). received ++ x ∷ pending (record p { p_rpos = p.p_rpos + 1 })) good.reading.0
      ∙ ap (λ l. received ++ l) (pending-head p good.reading.1)
      ∙ good.fifo;
  reading = tt;
  writing = WriteIsKept-read p w good.writing;
}

ReadIsKept-store :
    (p : Pipe) (r : Reader) (v : ℕ)
    → p.p_wpos < p.p_rpos + 32
    → ReadIsKept p r
    → ReadIsKept (record p { p_buf = update p.p_buf (p.p_wpos % 32) v }) r
ReadIsKept-store p (read x buf) v room kept = tt
ReadIsKept-store p (read_test n buf) v room kept = tt
ReadIsKept-store p (read_byte n buf byte) v room kept = (
  kept.0 ∙ sym (update_ne p.p_buf (p.p_wpos % 32) v (p.p_rpos % 32) (omega (arith, room, kept.1))),
  kept.1,
)

ReadIsKept-write :
    (p : Pipe) (r : Reader) → ReadIsKept p r → ReadIsKept (record p { p_wpos = p.p_wpos + 1 }) r
ReadIsKept-write p (read x buf) kept = tt
ReadIsKept-write p (read_test n buf) kept = tt
ReadIsKept-write p (read_byte n buf byte) kept = (kept.0, omega (arith, kept.1))

pending-store :
    (p : Pipe) (v : ℕ)
    → p.p_rpos ≤ p.p_wpos
    → p.p_wpos < p.p_rpos + 32
    → pending (record p { p_buf = update p.p_buf (p.p_wpos % 32) v }) ≡ pending p
pending-store p v ordered room =
    let c = p.p_wpos - p.p_rpos in
    subst (λ x. bytes c p.p_rpos (update p.p_buf (x % 32) v) ≡ pending p) (omega (arith, ordered))
      (bytes-update c c p.p_rpos v p.p_buf (omega arith) (omega (arith, ordered, room)))

pending-write :
    (p : Pipe)
    → p.p_rpos ≤ p.p_wpos
    → pending (record p { p_wpos = p.p_wpos + 1 }) ≡ pending p ++ p.p_buf (p.p_wpos % 32) ∷ []
pending-write p ordered =
    let c = p.p_wpos - p.p_rpos in
    let more : p.p_wpos + 1 - p.p_rpos ≡ suc c = omega (arith, ordered) in
    let last : p.p_rpos + c ≡ p.p_wpos = omega (arith, ordered) in
    ap (λ (x : ℕ). bytes x p.p_rpos p.p_buf) more
    ∙ bytes-append c p.p_rpos p.p_buf
    ∙ ap (λ (x : ℕ). pending p ++ p.p_buf (x % 32) ∷ []) last

-- A step of devpipe_write keeps the pipe sound.
pub writer-IsSound :
    (closed : Bool) (p : Pipe) (r : Reader) (w : Writer) (received sent : List ℕ)
    → IsSound p r w received sent
    → IsSound
        (devpipe_write closed p w).0
        r
        (devpipe_write closed p w).1
        received
        (sent ++ counted_write w)
unfolding devpipe_write
writer-IsSound closed p r (wrote x buf i) received sent good = rw (append_nil sent) good
writer-IsSound closed p r (write_test buf i) received sent good =
    rw (append_nil sent) (elim (Option-cases (get_elem? buf i)) [
      | inl e ↦
          rw (e, devpipe_write)
            (with_writer p r (write_test buf i) (wrote i buf i) received sent good tt)
      | inr (byte, e) ↦ elim (Bool-cases (leb (p.p_rpos + 32) p.p_wpos)) [
        | inl full ↦ elim (Bool-cases closed) [
          | inl g ↦
              rw (e, devpipe_write)
                (rw (full, g)
                  (with_writer p r (write_test buf i) (wrote 0 buf i) received sent good tt))
          | inr g ↦ rw (e, devpipe_write) (rw (full, g) good)
        ]
        | inr free ↦
            let room : p.p_wpos < p.p_rpos + 32 = ground (arith, free) in
            rw (e, devpipe_write)
              (rw free (record {
                ordered = good.ordered;
                room = good.room;
                fifo = ap (λ l. received ++ l) (pending-store p byte good.ordered room) ∙ good.fifo;
                reading = ReadIsKept-store p r byte room good.reading;
                writing = (e, sym (update_self p.p_buf (p.p_wpos % 32) byte), room);
              }))
      ]
    ])
writer-IsSound closed p r (write_byte buf i byte) received sent good = record {
  ordered = omega (arith, good.ordered);
  room = omega (arith, good.writing.2);
  fifo =
      ap (λ l. received ++ l) (pending-write p good.ordered)
      ∙ sym (append_assoc received (pending p) (p.p_buf (p.p_wpos % 32) ∷ []))
      ∙ ap₂ (λ l (x : ℕ). l ++ x ∷ []) good.fifo (sym good.writing.1);
  reading = ReadIsKept-write p r good.reading;
  writing = tt;
}
