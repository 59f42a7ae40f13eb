-- ===== src/DeepCopy/Copies.antt =====
-- What it is to copy, for references and what they lead to.
use limiter.Prelude.{suc, ◌≡◌, refl, ◌∙◌, ◌≤◌, List, [], ◌∷◌, Option, none, some, arith, All}
use limiter.Memory.{Ref, Cell, Kind, Memory, Using, pure, ◌>>=◌, updated, load}
use limiter.DeepCopy.{copy_ref, copy_items}

-- Nothing is stored yet from `next` on.
abbrev pub IsFree : Memory → Type 0
IsFree h = (p : Ref) → h.next ≤ p → h.cell p ≡ none

-- Every cell is as it was.
abbrev pub Extends : Memory → Memory → Type 0
Extends h h' = (h.next ≤ h'.next) × ((p : Ref) (c : Cell) → h.cell p ≡ some c → h'.cell p ≡ some c)

pub Extends-refl : (h : Memory) → Extends h h
Extends-refl h = (omega arith, λ p c e. e)

pub Extends-trans : (h h' h'' : Memory) → Extends h h' → Extends h' h'' → Extends h h''
Extends-trans h h' h'' (n, k) (n', k') = (omega (arith, n, n'), λ p c e. k' p c (k p c e))

pub bind-some :
    {A B : Type 0} (m : Using A) (f : A → Using B) (h h' : Memory) (a : A)
    → m h ≡ some (a, h')
    → (m >>= f) h ≡ f a h'
bind-some m f h h' a e = rw (e, ◌>>=◌) refl

pub bind-none :
    {A B : Type 0} (m : Using A) (f : A → Using B) (h : Memory) → m h ≡ none → (m >>= f) h ≡ none
bind-none m f h e = rw (e, ◌>>=◌) refl

module _ {A : Type 0} (k : Kind A) where
  pub load-cell :
      (h : Memory) (p : Ref) (a : A) → h.cell p ≡ some (k.inj a) → load k p h ≡ some (a, h)
  unfolding load
  load-cell h p a e = rw (e, load) (rw (k.out-inj a) refl)

  abbrev grown : Memory → A → Memory
  grown h a = record { next = suc h.next; cell = updated h.cell h.next (k.inj a) }

  grown-IsFree : (h : Memory) (a : A) → IsFree h → IsFree (grown h a)
  grown-IsFree h a free p n = ground (arith, free p)

  grown-Extends : (h : Memory) (a : A) → IsFree h → Extends h (grown h a)
  grown-Extends h a free = (omega arith, λ p c e. ground (arith, free p))

  grown-cell : (h : Memory) (a : A) → (grown h a).cell h.next ≡ some (k.inj a)
  grown-cell h a = ground arith

-- `m` finds what it reads, leaves every cell as it was, and gives what `Q` says.
abbrev pub Makes : {B : Type 0} → Memory → Using B → (Memory → B → Type 0) → Type 0
Makes {B} h m Q = (b : B) × (h' : Memory) × (m h ≡ some (b, h')) × IsFree h' × Extends h h' × Q h' b

pub Makes-pure :
    {B : Type 0} {Q : Memory → B → Type 0} (h : Memory) (b : B)
    → IsFree h
    → Q h b
    → Makes h (pure b) Q
Makes-pure h b free q = (b, h, refl, free, Extends-refl h, q)

pub Makes-bind :
    {A B : Type 0} {P : Memory → A → Type 0} {Q : Memory → B → Type 0} (h : Memory) (m : Using A)
    (f : A → Using B)
    → Makes h m P
    → ((a : A) (h' : Memory) → IsFree h' → Extends h h' → P h' a → Makes h' (f a) Q)
    → Makes h (m >>= f) Q
Makes-bind h m f (a, h1, e, free, ext, p) next =
    let (b, h2, e', free', ext', q) = next a h1 free ext p in
    (b, h2, bind-some m f h h1 a e ∙ e', free', Extends-trans h h1 h2 ext ext', q)

-- A memory in which the originals lie.
module _ (h0 : Memory) where
  -- From a memory with the originals in it, the copy of what is valid is made, in a memory in which
  -- all cells are as they were.
  abbrev pub Copies :
      {A : Type 0} → (A → Type 0) → (Memory → A → A → Type 0) → (A → Using A) → Type 0
  Copies {A} Valid Copied f =
      (h : Memory) (a : A)
      → IsFree h
      → Extends h0 h
      → Valid a
      → Makes h (f a) (λ h' b. Copied h' a b)

  -- The cells that came after the originals are as they were.
  abbrev pub Kept : Memory → Memory → Type 0
  Kept h h' = (p : Ref) (c : Cell) → h0.next ≤ p → h.cell p ≡ some c → h'.cell p ≡ some c

  pub Extends-Kept : (h h' : Memory) → Extends h h' → Kept h h'
  Extends-Kept h h' e = λ p c n f. e.1 p c f

  -- What is a copy stays one while those cells are kept, whatever is written elsewhere.
  abbrev pub IsStable : {A : Type 0} → (Memory → A → A → Type 0) → Type 0
  IsStable {A} Copied = (h h' : Memory) (a b : A) → Kept h h' → Copied h a b → Copied h' a b

  module _ {A : Type 0} (k : Kind A) (Valid : A → Type 0) (Copied : Memory → A → A → Type 0) where
    -- A reference that is nil or leads to something valid.
    abbrev pub ValidRef : Option Ref → Type 0
    ValidRef none = Unit
    ValidRef (some p) = (a : A) × (h0.cell p ≡ some (k.inj a)) × Valid a

    -- The copy of nil is nil, and that of a reference leads to a cell that was not there before, with
    -- a copy in it.
    abbrev pub CopiedRef : Memory → Option Ref → Option Ref → Type 0
    CopiedRef h none q = q ≡ none
    CopiedRef h (some p) q =
        (r : Ref) × (a : A) × (b : A) × (q ≡ some r)
        × (h0.cell p ≡ some (k.inj a))
        × (h.cell r ≡ some (k.inj b))
        × (h0.next ≤ r)
        × Copied h a b

    pub CopiedRef-IsStable : IsStable Copied → IsStable CopiedRef
    CopiedRef-IsStable stable h h' none q e c = c
    CopiedRef-IsStable stable h h' (some p) q e (r, a, b, f, g, i, n, c) =
        (r, a, b, f, g, e r (k.inj b) n i, n, stable h h' a b e c)

    pub copy_ref-Copies :
        (into : A → Using A)
        → IsStable Copied
        → Copies Valid Copied into
        → Copies ValidRef CopiedRef (copy_ref k into)
    unfolding copy_ref
    copy_ref-Copies into stable copies h none free e v = (none, h, refl, free, Extends-refl h, refl)
    copy_ref-Copies into stable copies h (some p) free e (a, here, v) =
        let (b, h1, same, free1, e1, c) = copies h a free e v in
        let loaded = load-cell k h p a (e.1 p (k.inj a) here) in
        let h2 = grown k h1 b in
        (
          some h1.next,
          h2,
          bind-some (load k p) _ h h a loaded ∙ bind-some (into a) _ h h1 b same ∙ refl,
          grown-IsFree k h1 b free1,
          Extends-trans h h1 h2 e1 (grown-Extends k h1 b free1),
          (
            h1.next,
            a,
            b,
            refl,
            here,
            grown-cell k h1 b,
            omega (arith, e.0, e1.0),
            stable h1 h2 a b (Extends-Kept h1 h2 (grown-Extends k h1 b free1)) c,
          ),
        )

  module _ {A : Type 0} (Valid : A → Type 0) (Copied : Memory → A → A → Type 0) where
    -- Copies one after the other, of the items of a slice.
    abbrev pub CopiedItems : Memory → List A → List A → Type 0
    CopiedItems h [] ys = ys ≡ []
    CopiedItems h (x ∷ xs) ys =
        (y : A) × (ys' : List A) × (ys ≡ y ∷ ys') × Copied h x y × CopiedItems h xs ys'

    pub CopiedItems-IsStable : IsStable Copied → IsStable CopiedItems
    CopiedItems-IsStable stable h h' [] ys e c = c
    CopiedItems-IsStable stable h h' (x ∷ xs) ys e (y, ys', f, c, cs) =
        (y, ys', f, stable h h' x y e c, CopiedItems-IsStable stable h h' xs ys' e cs)

    pub copy_items-Copies :
        (into : A → Using A)
        → IsStable Copied
        → Copies Valid Copied into
        → Copies (All Valid) CopiedItems (copy_items into)
    unfolding copy_items
    copy_items-Copies into stable copies h [] free e v = Makes-pure h [] free refl
    copy_items-Copies into stable copies h (a ∷ rest) free e (v, vs) =
        Makes-bind h (into a) _ (copies h a free e v) (λ b h1 free1 e1 c.
          Makes-bind h1 (copy_items into rest) _
            (copy_items-Copies into stable copies h1 rest free1 (Extends-trans h0 h h1 e e1) vs)
            (λ bs h2 free2 e2 cs.
              Makes-pure h2 (b ∷ bs) free2
                (b, bs, refl, stable h1 h2 a b (Extends-Kept h1 h2 e2) c, cs)))
