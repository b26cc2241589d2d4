-- ===== src/Packet/Bytes.antt =====
-- Reads and writes of a packet's memory: what is in bounds succeeds, what is written is read back,
-- and the rest of the packet stays.
use native.Mathlib.Nat.{add-zero}
use omni_stack_rust.Base.{
  ℕ, zero, suc, ◌+◌, ◌/◌, ◌%◌, ◌≤◌, ◌<◌, ◌≡◌, refl, sym, ap, ◌∙◌, subst, ◌⊎◌, inl, inr, some, List,
  [], ◌∷◌, Outcome, ok, Ends, or_undefined, length, get_elem?, set, lt→ltb, arith, length-set,
  get_elem?-set_self, get_elem?-set_ne, lt_get_elem?,
}
use omni_stack_rust.Packet.{
  Packet, Region, own, outside, bytes, put_bytes, read8, write8, read16, write16, write32,
  write_all,
}

-- What no write to the memory changes.
pub record Frame (p : Packet) (q : Packet) : Type 0 where
  pub len : q.len ≡ p.len
  pub l2_header : q.l2_header ≡ p.l2_header
  pub l3_header : q.l3_header ≡ p.l3_header
  pub l4_header : q.l4_header ≡ p.l4_header
  pub offset : q.offset ≡ p.offset
  pub next : q.next ≡ p.next
  pub nic : q.nic ≡ p.nic
  pub thread_id : q.thread_id ≡ p.thread_id
  pub refcnt : q.refcnt ≡ p.refcnt
  pub buf_ty : q.buf_ty ≡ p.buf_ty
  pub size : length (bytes q) ≡ length (bytes p)

pub Frame-refl : (p : Packet) → Frame p p
Frame-refl p = ground arith

pub Frame-trans : {p q r : Packet} → Frame p q → Frame q r → Frame p r
Frame-trans f g = record {
  len = g.len ∙ f.len;
  l2_header = g.l2_header ∙ f.l2_header;
  l3_header = g.l3_header ∙ f.l3_header;
  l4_header = g.l4_header ∙ f.l4_header;
  offset = g.offset ∙ f.offset;
  next = g.next ∙ f.next;
  nic = g.nic ∙ f.nic;
  thread_id = g.thread_id ∙ f.thread_id;
  refcnt = g.refcnt ∙ f.refcnt;
  buf_ty = g.buf_ty ∙ f.buf_ty;
  size = g.size ∙ f.size;
}

bytes-put_bytes : (bs : List ℕ) (p : Packet) → bytes (put_bytes bs p) ≡ bs
bytes-put_bytes bs p = by_region p.region refl
  where
    by_region : (r : Region) → p.region ≡ r → bytes (put_bytes bs p) ≡ bs
    by_region own e = rw e refl
    by_region (outside old) e = rw e refl

put_bytes-Frame :
    (bs : List ℕ) (p : Packet) → length bs ≡ length (bytes p) → Frame p (put_bytes bs p)
put_bytes-Frame bs p h = by_region p.region refl
  where
    same : length (bytes (put_bytes bs p)) ≡ length (bytes p)
    same = ap length (bytes-put_bytes bs p) ∙ h

    by_region : (r : Region) → p.region ≡ r → Frame p (put_bytes bs p)
    by_region own e = ground (arith, same)
    by_region (outside old) e = ground (arith, same)

-- `bs` was written at `i`: it lies there, and all else is as before.
pub record Wrote (i : ℕ) (bs : List ℕ) (p : Packet) (q : Packet) : Type 0 where
  pub frame : Frame p q
  pub inside : (j : ℕ) → j < length bs → get_elem? (bytes q) (i + j) ≡ get_elem? bs j
  pub before : (j : ℕ) → j < i → get_elem? (bytes q) j ≡ get_elem? (bytes p) j
  pub behind : (j : ℕ) → i + length bs ≤ j → get_elem? (bytes q) j ≡ get_elem? (bytes p) j

abbrev pub Writes : Outcome Packet → ℕ → List ℕ → Packet → Type 0
Writes m i bs p = Ends m (Wrote i bs p)

pub write8-Writes :
    (i b : ℕ) (p : Packet) → i < length (bytes p) → Writes (write8 i b p) i (b ∷ []) p
unfolding write8
write8-Writes i b p h = (put_bytes (set (bytes p) i b) p, rw (lt→ltb i (length (bytes p)) h), wrote)
  where
    now : bytes (put_bytes (set (bytes p) i b) p) ≡ set (bytes p) i b
    now = bytes-put_bytes (set (bytes p) i b) p

    inside : (j : ℕ) → j < 1 → get_elem? (set (bytes p) i b) (i + j) ≡ get_elem? (b ∷ []) j
    inside zero k =
        ap (get_elem? (set (bytes p) i b)) (add-zero i) ∙ get_elem?-set_self (bytes p) i b h
    inside (suc j) k = absurd (omega arith)

    wrote : Wrote i (b ∷ []) p (put_bytes (set (bytes p) i b) p)
    wrote = record {
      frame = put_bytes-Frame (set (bytes p) i b) p (length-set (bytes p) i b);
      inside = λ j k. ap (λ l. get_elem? l (i + j)) now ∙ inside j k;
      before = λ j k.
          ap (λ l. get_elem? l j) now
          ∙ get_elem?-set_ne (bytes p) i j b (λ e. absurd (omega arith));
      behind = λ j k.
          ap (λ l. get_elem? l j) now
          ∙ get_elem?-set_ne (bytes p) i j b (λ e. absurd (omega arith));
    }

-- A write just behind a write joins it.
Wrote-append :
    (i b : ℕ) (bs : List ℕ) {p q r : Packet}
    → Wrote i (b ∷ []) p q
    → Wrote (i + 1) bs q r
    → Wrote i (b ∷ bs) p r
Wrote-append i b bs {p} {q} {r} v w = record {
  frame = Frame-trans v.frame w.frame;
  inside = inside;
  before = λ j k. w.before j (omega arith) ∙ v.before j k;
  behind = λ j k. w.behind j (omega arith) ∙ v.behind j (omega arith);
}
  where
    inside : (j : ℕ) → j < length (b ∷ bs) → get_elem? (bytes r) (i + j) ≡ get_elem? (b ∷ bs) j
    inside zero k = w.before (i + 0) (omega arith) ∙ v.inside 0 (omega arith)
    inside (suc j) k = ap (get_elem? (bytes r)) (omega arith) ∙ w.inside j (omega arith)

pub write_all-Writes :
    (bs : List ℕ) (i : ℕ) (p : Packet)
    → i + length bs ≤ length (bytes p)
    → Writes (write_all i bs p) i bs p
unfolding write_all
write_all-Writes [] i p h = (
  p,
  refl,
  record {
    frame = Frame-refl p;
    inside = λ j k. elim k [ ];
    before = λ j k. refl;
    behind = λ j k. refl;
  },
)
write_all-Writes (b ∷ bs) i p h =
    let (q, e, v) = write8-Writes i b p (omega arith) in
    let (r, e', w) = write_all-Writes bs (i + 1) q (omega (arith, v.frame.size)) in
    (r, rw (e, e'), Wrote-append i b bs v w)

abbrev pub le16 : ℕ → List ℕ
le16 x = x % 256 ∷ x / 256 % 256 ∷ []

pub write16-Writes :
    (i x : ℕ) (p : Packet) → i + 2 ≤ length (bytes p) → Writes (write16 i x p) i (le16 x) p
unfolding write16 write_all
write16-Writes i x p h =
    let (q, e, v) = write8-Writes i (x % 256) p (omega arith) in
    let (r, e', w) = write8-Writes (i + 1) (x / 256 % 256) q (omega (arith, v.frame.size)) in
    (r, rw (e, e'), Wrote-append i (x % 256) _ v w)

pub read8-inside :
    (p q : Packet) (i : ℕ) (bs : List ℕ) (j b : ℕ)
    → Wrote i bs p q
    → get_elem? bs j ≡ some b
    → read8 q (i + j) ≡ ok b
unfolding read8
read8-inside p q i bs j b w h = ap or_undefined (w.inside j (lt_get_elem? bs j h) ∙ h)

-- A `u16` that was written is read back.
pub read16-write16 : (p q : Packet) (i x : ℕ) → x < 65536 → Wrote i (le16 x) p q → read16 q i ≡ ok x
unfolding read16
read16-write16 p q i x h w = rw (low, high) (ap ok (omega arith))
  where
    low : get_elem? (bytes q) i ≡ some (x % 256)
    low = ap (get_elem? (bytes q)) (sym (add-zero i)) ∙ w.inside 0 (omega arith)

    high : get_elem? (bytes q) (i + 1) ≡ some (x / 256 % 256)
    high = w.inside 1 (omega arith)

-- Only bytes from `lo` up to `hi` may have changed.
pub record Touched (lo hi : ℕ) (p : Packet) (q : Packet) : Type 0 where
  pub frame : Frame p q
  pub before : (j : ℕ) → j < lo → get_elem? (bytes q) j ≡ get_elem? (bytes p) j
  pub behind : (j : ℕ) → hi ≤ j → get_elem? (bytes q) j ≡ get_elem? (bytes p) j

pub Touched-refl : (lo hi : ℕ) (p : Packet) → Touched lo hi p p
Touched-refl lo hi p = record { frame = Frame-refl p; before = λ j h. refl; behind = λ j h. refl }

-- One more write in the range.
pub Touched-write :
    (lo hi i : ℕ) (bs : List ℕ) {p q r : Packet}
    → lo ≤ i
    → i + length bs ≤ hi
    → Touched lo hi p q
    → Wrote i bs q r
    → Touched lo hi p r
Touched-write lo hi i bs l h t w = record {
  frame = Frame-trans t.frame w.frame;
  before = λ j k. w.before j (omega arith) ∙ t.before j k;
  behind = λ j k. w.behind j (omega arith) ∙ t.behind j k;
}

-- A byte or a `u16` stays readable through a write in front of it or behind it.
abbrev pub Apart : ℕ → ℕ → ℕ → ℕ → Type 0
Apart j n i m = (j + n ≤ i) ⊎ (i + m ≤ j)

pub byte-kept :
    {p q : Packet} (i j : ℕ) (bs : List ℕ)
    → Wrote i bs p q
    → Apart j 1 i (length bs)
    → get_elem? (bytes q) j ≡ get_elem? (bytes p) j
byte-kept i j bs w (inl h) = w.before j (omega arith)
byte-kept i j bs w (inr h) = w.behind j (omega arith)

pub read16-kept :
    {p q : Packet} (i j x : ℕ) (bs : List ℕ)
    → Wrote i bs p q
    → Apart j 2 i (length bs)
    → read16 p j ≡ ok x
    → read16 q j ≡ ok x
unfolding read16
read16-kept i j x bs w (inl h) e = rw (w.before j (omega arith), w.before (j + 1) (omega arith)) e
read16-kept i j x bs w (inr h) e = rw (w.behind j (omega arith), w.behind (j + 1) (omega arith)) e

abbrev pub le32 : ℕ → List ℕ
le32 x =
    x % 65536 % 256
    ∷ x % 65536 / 256 % 256
    ∷ x / 65536 % 65536 % 256
    ∷ x / 65536 % 65536 / 256 % 256
    ∷ []

pub write32-Writes :
    (i x : ℕ) (p : Packet) → i + 4 ≤ length (bytes p) → Writes (write32 i x p) i (le32 x) p
unfolding write32 write16
write32-Writes i x p h =
    let (a, e, u) = write8-Writes i (x % 65536 % 256) p (omega arith) in
    let (b, f, v) = write8-Writes (i + 1) (x % 65536 / 256 % 256) a (omega (arith, u.frame.size)) in
    last a b e f u v
      (write16-Writes (i + 2) (x / 65536 % 65536) b (omega (arith, u.frame.size, v.frame.size)))
  where
    last :
        (a b : Packet)
        → write8 i (x % 65536 % 256) p ≡ ok a
        → write8 (i + 1) (x % 65536 / 256 % 256) a ≡ ok b
        → Wrote i (x % 65536 % 256 ∷ []) p a
        → Wrote (i + 1) (x % 65536 / 256 % 256 ∷ []) a b
        → Writes (write16 (i + 2) (x / 65536 % 65536) b) (i + 2) (le16 (x / 65536 % 65536)) b
        → Writes (write32 i x p) i (le32 x) p
    last a b e f u v (c, g, w) = (
      c,
      rw (e, f) g,
      Wrote-append i (x % 65536 % 256) (x % 65536 / 256 % 256 ∷ le16 (x / 65536 % 65536)) u (
          Wrote-append (i + 1) (x % 65536 / 256 % 256) (le16 (x / 65536 % 65536)) v
            (subst (λ k. Wrote k (le16 (x / 65536 % 65536)) b c) (omega arith) w)),
    )
