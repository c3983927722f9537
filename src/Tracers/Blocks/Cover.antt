-- ===== src/Tracers/Blocks/Cover.antt =====
-- The blocks of a call in dyengine/tracers/nested.go: what one location does to them.
use mathlib.Core.Path.{subst}
use mathlib.Core.List.{append_assoc, append-nil}
use erebus_redgiant.Prelude.{
  ◌≡◌, ◌≢◌, refl, sym, ap, ◌∙◌, inl, inr, Bool, true, false, ◌==◌, ◌||◌, Bool-cases, Option, none,
  some, List, [], ◌∷◌, ◌++◌, arith, Address,
}
use erebus_redgiant.Tracers.Call.{Location}
use erebus_redgiant.Tracers.Blocks.{
  TraceBlock, DataWithTrace, capture_location, start_block, end_block, go_on, with_location,
  is_basic_block_tail, is_basic_block_head, op_jumpdest,
}

unfoldable pub covered : List TraceBlock → List Location
covered [] = []
covered (b ∷ bs) = b.content ++ covered bs

abbrev pub current : Option TraceBlock → List Location
current none = []
current (some b) = b.content

unfoldable pub joined : List (List TraceBlock) → List TraceBlock
joined [] = []
joined (p ∷ ps) = p ++ joined ps

-- The blocks of all the paths.
abbrev pub blocks : DataWithTrace → List TraceBlock
blocks d = joined d.paths ++ d.path

-- No location but the last of a block is a tail, and none but the first a JUMPDEST.
unfoldable pub IsStraight : List Location → Type 0
IsStraight [] = Unit
IsStraight (a ∷ []) = Unit
IsStraight (a ∷ b ∷ ls) =
    (is_basic_block_tail a ≡ false) × ((b.opcode == op_jumpdest) ≡ false) × IsStraight (b ∷ ls)

abbrev pub IsBlock : List Location → Type 0
IsBlock ls = (ls ≢ []) × IsStraight ls

unfoldable pub AllBlocks : List TraceBlock → Type 0
AllBlocks [] = Unit
AllBlocks (b ∷ bs) = IsBlock b.content × AllBlocks bs

covered-snoc :
    (xs : List TraceBlock) (b : TraceBlock) → covered (xs ++ b ∷ []) ≡ covered xs ++ b.content
unfolding covered
covered-snoc [] b = append-nil b.content
covered-snoc (x ∷ xs) b = rw (covered-snoc xs b, append_assoc) refl

AllBlocks-snoc :
    (xs : List TraceBlock) (b : TraceBlock)
    → AllBlocks xs
    → IsBlock b.content
    → AllBlocks (xs ++ b ∷ [])
unfolding AllBlocks
AllBlocks-snoc [] b h k = (k, record {})
AllBlocks-snoc (x ∷ xs) b (a, h) k = (a, AllBlocks-snoc xs b h k)

IsStraight-snoc :
    (ls : List Location) (last loc : Location)
    → IsStraight (ls ++ last ∷ [])
    → is_basic_block_tail last ≡ false
    → (loc.opcode == op_jumpdest) ≡ false
    → IsStraight ((ls ++ last ∷ []) ++ loc ∷ [])
unfolding IsStraight
IsStraight-snoc [] last loc h t j = (t, j, record {})
IsStraight-snoc (x ∷ []) last loc h t j = (h.0, h.1, (t, j, record {}))
IsStraight-snoc (x ∷ y ∷ ls) last loc h t j = (h.0, h.1, IsStraight-snoc (y ∷ ls) last loc h.2 t j)

-- The current block ends with the last location, and without one the last location is a tail.
unfoldable pub IsOpen : Option Location → Option TraceBlock → Type 0
unfolding IsStraight
IsOpen none none = Unit
IsOpen none (some b) = ⊥
IsOpen (some last) none = is_basic_block_tail last ≡ true
IsOpen (some last) (some b) =
    (ls : List Location) × (b.content ≡ ls ++ last ∷ []) × IsStraight b.content

or_false : (a b : Bool) → (a || b) ≡ false → (a ≡ false) × (b ≡ false)
or_false a b h = ground arith

-- A block that is appended comes after all others.
blocks-append :
    (ps : List (List TraceBlock)) (p : List TraceBlock) (b : TraceBlock)
    → joined ps ++ (p ++ b ∷ []) ≡ (joined ps ++ p) ++ b ∷ []
blocks-append ps p b = sym (append_assoc (joined ps) p (b ∷ []))

covered-append :
    (ps : List (List TraceBlock)) (p : List TraceBlock) (b : TraceBlock)
    → covered (joined ps ++ (p ++ b ∷ [])) ≡ covered (joined ps ++ p) ++ b.content
covered-append ps p b = ap covered (blocks-append ps p b) ∙ covered-snoc (joined ps ++ p) b

AllBlocks-append :
    (ps : List (List TraceBlock)) (p : List TraceBlock) (b : TraceBlock)
    → AllBlocks (joined ps ++ p)
    → IsBlock b.content
    → AllBlocks (joined ps ++ (p ++ b ∷ []))
AllBlocks-append ps p b h k =
    subst AllBlocks (sym (blocks-append ps p b)) (AllBlocks-snoc (joined ps ++ p) b h k)

-- What a location does to the data.
abbrev pub Records : Location → DataWithTrace → DataWithTrace → Type 0
Records loc d d' =
    IsOpen d'.loc d'.blk
    × AllBlocks (blocks d')
    × (covered (blocks d') ++ current d'.blk ≡ (covered (blocks d) ++ current d.blk) ++ loc ∷ [])
    × (d'.paths ≡ d.paths)

snoc≢nil : (ls : List Location) (l : Location) → ls ++ l ∷ [] ≢ []
snoc≢nil [] l h = absurd (ground arith)
snoc≢nil (x ∷ ls) l h = absurd (ground arith)

open-IsBlock : (last : Option Location) (b : TraceBlock) → IsOpen last (some b) → IsBlock b.content
unfolding IsOpen
open-IsBlock none b o = absurd o
open-IsBlock (some last) b (ls, e, straight) =
    (subst (λ c. c ≢ []) (sym e) (snoc≢nil ls last), straight)

start_block-Records :
    (loc : Location) (s c : Address) (last : Option Location) (blk : Option TraceBlock)
    (d : DataWithTrace)
    → IsOpen last blk
    → AllBlocks (blocks d)
    → Records loc
        (record d { loc = last; blk = blk })
        (start_block loc s c (record d { loc = last; blk = blk }))
unfolding IsOpen IsStraight
start_block-Records loc s c last none d o h = (
  ([], refl, record {}),
  h,
  ap (λ l. l ++ loc ∷ []) (sym (append-nil (covered (blocks d)))),
  refl,
)
start_block-Records loc s c last (some b) d o h = (
  ([], refl, record {}),
  AllBlocks-append d.paths d.path b h (open-IsBlock last b o),
  ap (λ l. l ++ loc ∷ []) (covered-append d.paths d.path b),
  refl,
)

-- The current block goes on with a location that is no head.
with_location-IsStraight :
    (loc last : Location) (b : TraceBlock)
    → IsOpen (some last) (some b)
    → is_basic_block_head (some last) loc ≡ false
    → IsOpen (some loc) (some (with_location b loc))
unfolding IsOpen is_basic_block_head
with_location-IsStraight loc last b (ls, e, straight) inner =
    let (t, j) = or_false (is_basic_block_tail last) (loc.opcode == op_jumpdest) inner in
    (
      b.content,
      refl,
      subst (λ l. IsStraight (l ++ loc ∷ [])) (sym e)
          (IsStraight-snoc ls last loc (subst IsStraight e straight) t j),
    )

continued :
    (loc : Location) (s c : Address) (last : Option Location) (blk : Option TraceBlock)
    (d : DataWithTrace)
    → IsOpen last blk
    → AllBlocks (blocks d)
    → is_basic_block_head last loc ≡ false
    → (d' : DataWithTrace) × (capture_location false loc s c (record d { loc = last; blk = blk })
        ≡ some d')
      × Records loc (record d { loc = last; blk = blk }) d'
unfolding capture_location IsOpen is_basic_block_head
continued loc s c none blk d o h inner = absurd (ground arith)
continued loc s c (some last) none d o h inner =
    absurd
      (ground (arith, o, or_false (is_basic_block_tail last) (loc.opcode == op_jumpdest) inner))
continued loc s c (some last) (some b) d o h inner = elim (Bool-cases (is_basic_block_tail loc)) [
  | inl tail ↦ (
    end_block loc b (record d { loc = some last; blk = some b }),
    rw (inner, tail) refl,
    (
      tail,
      AllBlocks-append d.paths d.path (with_location b loc) h (
          open-IsBlock (some loc) (with_location b loc)
            (with_location-IsStraight loc last b o inner)),
      append-nil (covered (joined d.paths ++ (d.path ++ with_location b loc ∷ [])))
          ∙ covered-append d.paths d.path (with_location b loc)
          ∙ sym (append_assoc (covered (blocks d)) b.content (loc ∷ [])),
      refl,
    ),
  )
  | inr more ↦ (
    go_on loc b (record d { loc = some last; blk = some b }),
    rw (inner, more) refl,
    (
      with_location-IsStraight loc last b o inner,
      h,
      sym (append_assoc (covered (blocks d)) b.content (loc ∷ [])),
      refl,
    ),
  )
]

pub capture_location-Records :
    (loc : Location) (s c : Address) (last : Option Location) (blk : Option TraceBlock)
    (d : DataWithTrace)
    → IsOpen last blk
    → AllBlocks (blocks d)
    → (d' : DataWithTrace) × (capture_location false loc s c (record d { loc = last; blk = blk })
        ≡ some d')
      × Records loc (record d { loc = last; blk = blk }) d'
unfolding capture_location
capture_location-Records loc s c last blk d o h = elim (Bool-cases (is_basic_block_head last loc)) [
  | inl head ↦ (
    start_block loc s c (record d { loc = last; blk = blk }),
    rw (head) refl,
    start_block-Records loc s c last blk d o h,
  )
  | inr inner ↦ continued loc s c last blk d o h inner
]
