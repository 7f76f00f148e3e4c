-- ===== src/Descriptor/Reading.antt =====
-- read and readn of tp-parte4/lib/fd.c on a descriptor of a device whose reads take bytes from a stream.
use sistemas_operativos_2c.Common.{
  ℕ, zero, suc, ◌+◌, ◌-◌, ◌<◌, ◌≤◌, ◌≡◌, ◌≢◌, ◌⊎◌, inl, inr, refl, ap, sym, ◌∙◌, false, some, List,
  [], ◌∷◌, ◌++◌, length, take, drop, ◌==◌, ==_ne, arith, bit_and,
}
use native.Mathlib.Decide.{ℕ_discrete}
use sistemas_operativos_2c.Errors.{Outcome, ok}
use sistemas_operativos_2c.Descriptor.{
  Program, P, Dev, ◌>>=◌, index2fd, fd_of, dev_lookup, with_dev, read, readn_from, readn,
}
use sistemas_operativos_2c.Descriptor.Sharing.{fd_lookup-mapped}

module _ {W : Type 0} (devtab : List (Dev W)) (fdnum : ℕ) (f : ℕ → ℕ → P W (Outcome (List ℕ))) where
  -- The descriptor is open for reading, on a device that reads by `f`.
  pub record IsReadable (s : Program W) : Type 0 where
    pub page : ℕ
    pub dev : Dev W
    pub small : fdnum < 32
    pub there : s.mapped (index2fd fdnum) ≡ some page
    pub found : dev_lookup devtab (fd_of (index2fd fdnum) s).fd_dev_id ≡ ok dev
    pub mode : (bit_and (fd_of (index2fd fdnum) s).fd_omode 3 == 1) ≡ false
    pub reads_by : dev.dev_read ≡ some f

  -- In the states `Ready`, a read of at most `limit` bytes takes bytes from the front of what is left of the stream, at
  -- most as many as it is asked for, and one at least unless it is asked for none or none is left.
  pub record IsStream (limit : ℕ) (Ready : Program W → Type 0) (left : Program W → List ℕ)
      : Type 0 where
    pub readable : (s : Program W) → Ready s → IsReadable s
    pub count : ℕ → Program W → ℕ
    pub after : ℕ → Program W → Program W
    pub gives :
        (n : ℕ) (s : Program W)
        → n ≤ limit
        → Ready s
        → f (index2fd fdnum) n s ≡ (ok (take (count n s) (left s)), after n s)
    pub leaves :
        (n : ℕ) (s : Program W) → n ≤ limit → Ready s → left (after n s) ≡ drop (count n s) (left s)
    pub stays : (n : ℕ) (s : Program W) → n ≤ limit → Ready s → Ready (after n s)
    pub bounded :
        (n : ℕ) (s : Program W) → Ready s → (count n s ≤ n) × (count n s ≤ length (left s))
    pub progress : (n : ℕ) (s : Program W) → Ready s → (count n s ≢ 0) ⊎ ((n ≡ 0) ⊎ (left s ≡ []))

  read-by : (n : ℕ) (s : Program W) → IsReadable s → read devtab fdnum n s ≡ f (index2fd fdnum) n s
  unfolding read with_dev
  read-by n s r =
      rw (◌>>=◌, fd_lookup-mapped fdnum r.page s r.small r.there)
        (rw (r.found, r.mode, r.reads_by) refl)

module _ {A : Type 0} where
  take_none : (n : ℕ) (l : List A) → l ≡ [] → take n l ≡ []
  take_none zero l e = refl
  take_none (suc n) l e = rw e refl

  drop_none : (n : ℕ) (l : List A) → l ≡ [] → drop n l ≡ []
  drop_none zero l e = e
  drop_none (suc n) l e = rw e refl

  take_then : (k r : ℕ) (l : List A) → take k l ++ take r (drop k l) ≡ take (k + r) l
  take_then zero r l = let e : 0 + r ≡ r = omega arith in rw e refl
  take_then (suc k) r [] =
      let e : suc k + r ≡ suc (k + r) = omega arith in rw e (take_none r [] refl)
  take_then (suc k) r (x ∷ l) =
      let e : suc k + r ≡ suc (k + r) = omega arith in rw e (ap (λ t. x ∷ t) (take_then k r l))

  drop_then : (k r : ℕ) (l : List A) → drop r (drop k l) ≡ drop (k + r) l
  drop_then zero r l = let e : 0 + r ≡ r = omega arith in rw e refl
  drop_then (suc k) r [] =
      let e : suc k + r ≡ suc (k + r) = omega arith in rw e (drop_none r [] refl)
  drop_then (suc k) r (x ∷ l) =
      let e : suc k + r ≡ suc (k + r) = omega arith in rw e (drop_then k r l)

  pub length-take : (k : ℕ) (l : List A) → k ≤ length l → length (take k l) ≡ k
  length-take zero l h = refl
  length-take (suc k) [] h = absurd (omega arith)
  length-take (suc k) (x ∷ l) h = ap suc (length-take k l (omega arith))

module _ {W : Type 0} (devtab : List (Dev W)) (fdnum : ℕ) where
  readn_from-stop :
      (fuel n : ℕ) (bytes : List ℕ) (s s₁ : Program W)
      → n ≢ 0
      → read devtab fdnum n s ≡ (ok bytes, s₁)
      → length bytes ≡ 0
      → readn_from devtab (suc fuel) fdnum n s ≡ (ok [], s₁)
  unfolding readn_from
  readn_from-stop fuel n bytes s s₁ ne e h = rw (==_ne n 0 ne, ◌>>=◌, e, h) refl

  readn_from-go :
      (fuel n : ℕ) (bytes more : List ℕ) (s s₁ s₂ : Program W)
      → n ≢ 0
      → read devtab fdnum n s ≡ (ok bytes, s₁)
      → length bytes ≢ 0
      → readn_from devtab fuel fdnum (n - length bytes) s₁ ≡ (ok more, s₂)
      → readn_from devtab (suc fuel) fdnum n s ≡ (ok (bytes ++ more), s₂)
  unfolding readn_from
  readn_from-go fuel n bytes more s s₁ s₂ ne e h e' =
      rw (==_ne n 0 ne, ◌>>=◌, e, ==_ne (length bytes) 0 h) (rw (◌>>=◌, e') refl)

  module _ {f : ℕ → ℕ → P W (Outcome (List ℕ))} {limit : ℕ} {Ready : Program W → Type 0}
      {left : Program W → List ℕ} (stream : IsStream devtab fdnum f limit Ready left) where
    readn_from-takes :
        (fuel n : ℕ) (s : Program W)
        → Ready s
        → n ≤ fuel
        → n ≤ limit
        → (s' : Program W) × (readn_from devtab fuel fdnum n s ≡ (ok (take n (left s)), s'))
          × (left s' ≡ drop n (left s))
          × Ready s'
    unfolding readn_from
    readn_from-takes zero zero s ready h hl = (s, refl, refl, ready)
    readn_from-takes (suc fuel) zero s ready h hl = (s, refl, refl, ready)
    readn_from-takes zero (suc n) s ready h hl = absurd (omega arith)
    readn_from-takes (suc fuel) (suc n) s ready h hl =
        let k = stream.count (suc n) s in
        let s₁ = stream.after (suc n) s in
        let l = left s in
        let (most, within) = stream.bounded (suc n) s ready in
        let e : read devtab fdnum (suc n) s ≡ (ok (take k l), s₁) =
          read-by devtab fdnum f (suc n) s (stream.readable s ready)
          ∙ stream.gives (suc n) s hl ready in
        let len = length-take k l within in
        elim (ℕ_discrete k 0) [
          | yes z ↦
              let empty : l ≡ [] = elim (stream.progress (suc n) s ready) [
                | inl ne ↦ absurd (ne z)
                | inr (inl z') ↦ absurd (omega (arith, z'))
                | inr (inr e') ↦ e'
              ] in
              (
                s₁,
                readn_from-stop fuel (suc n) (take k l) s s₁ (λ z'. omega (arith, z')) e (len ∙ z)
                    ∙ ap (λ t. (ok t, s₁)) (sym (take_none (suc n) l empty)),
                stream.leaves (suc n) s hl ready
                    ∙ drop_none k l empty
                    ∙ sym (drop_none (suc n) l empty),
                stream.stays (suc n) s hl ready,
              )
          | no ne ↦
              let (s₂, e₂, left₂, ready₂) =
                readn_from-takes fuel (suc n - k) s₁ (stream.stays (suc n) s hl ready) (omega arith)
                  (omega arith) in
              let left₁ = stream.leaves (suc n) s hl ready in
              let all : k + (suc n - k) ≡ suc n = omega arith in
              (
                s₂,
                readn_from-go fuel (suc n) (take k l) (take (suc n - k) (left s₁)) s s₁ s₂
                      (λ z'. omega (arith, z')) e (λ z'. ne (sym len ∙ z'))
                      (ap (λ x. readn_from devtab fuel fdnum (suc n - x) s₁) len ∙ e₂)
                    ∙ ap (λ t. (ok t, s₂))
                        (ap (λ t. take k l ++ take (suc n - k) t) left₁
                          ∙ take_then k (suc n - k) l
                          ∙ ap (λ x. take x l) all),
                left₂
                    ∙ ap (drop (suc n - k)) left₁
                    ∙ drop_then k (suc n - k) l
                    ∙ ap (λ x. drop x l) all,
                ready₂,
              )
        ]

    -- On a descriptor that stays open for reading on a device whose reads of up to `limit` bytes take
    -- bytes from a stream, as many as they like but at least one while some are left and
    -- wanted, readn of at most `limit` bytes returns the first `n` bytes of what is left of the stream, or all of it
    -- where that is less, and leaves the rest.
    pub readn-take :
        (n : ℕ) (s : Program W)
        → Ready s
        → n ≤ limit
        → (s' : Program W) × (readn devtab fdnum n s ≡ (ok (take n (left s)), s'))
          × (left s' ≡ drop n (left s))
          × Ready s'
    unfolding readn
    readn-take n s ready h = readn_from-takes n n s ready (omega arith) h
