-- ===== src/Snapshots/Overlap/Invariant.antt =====
-- What holds in every state of overlapping calls of writer.go, if no two are on one date.
use nba_games_service.Base.{
  ℕ, ◌==◌, String, Option, none, some, ◌≡◌, ◌≢◌, ◌⊎◌, inl, inr, refl, sym, ◌∙◌, arith, Bool-cases,
  subst,
}
use nba_games_service.Domain.{TodayResponse}
use nba_games_service.Snapshots.Disk.{snapshot_json, Node, file, Disk, find_node}
use nba_games_service.Snapshots.Writer.{Writer, prepared}
use nba_games_service.Snapshots.Writer.Pruning.{games_path}
use nba_games_service.Snapshots.Overlap.{
  Pc, idle, entered, writing, renaming, updating, pruning, recording, placing, date_of, Move,
  begins, same, opens, writes, closes, renames, lists, keeps, prunes, opens_manifest,
  writes_manifest, closes_manifest, places, fails, System, Step, turn, Reach, start, later, at_rest,
  Distinct, Apart, Begun, Begins, Started,
}
use nba_games_service.Snapshots.Overlap.Whole.{Holds, Move-snapshot, Move-tmp, Move-own}

-- The call a goroutine is in, up to its rename.
abbrev Carries : Pc → String → TodayResponse → Type 0
Carries (entered date snapshot) x t = (date ≡ x) × (snapshot ≡ t)
Carries (writing date snapshot) x t = (date ≡ x) × (snapshot ≡ t)
Carries (renaming date snapshot) x t = (date ≡ x) × (snapshot ≡ t)
Carries _ x t = ⊥

Move-Carries :
    {w : Writer} {d d' : Disk} {p p' : Pc} (x : String) (t : TodayResponse) (mv : Move w d p d' p')
    → Carries p' x t
    → Carries p x t ⊎ Begins mv x t
unfolding Begins
Move-Carries x t (begins date snapshot e) c = inr c
Move-Carries x t (opens part) c = inl c
Move-Carries x t (writes part) c = inl c
Move-Carries x t closes c = inl c
Move-Carries x t (same e) c = absurd c
Move-Carries x t (renames n e) c = absurd c
Move-Carries x t (lists env dates e) c = absurd c
Move-Carries x t (keeps e) c = absurd c
Move-Carries x t (prunes env e) c = absurd c
Move-Carries x t (opens_manifest part) c = absurd c
Move-Carries x t (writes_manifest q part e) c = absurd c
Move-Carries x t closes_manifest c = absurd c
Move-Carries x t (places n e) c = absurd c
Move-Carries x t fails c = absurd c

-- A move of another goroutine leaves the temporary file of this one alone.
Move-Holds :
    {w : Writer} {d d' : Disk} {p p' : Pc} (q : Pc)
    → Move w d p d' p'
    → ((x : String) → date_of q ≡ some x → date_of p ≢ some x)
    → Holds w d q
    → Holds w d' q
Move-Holds {w} {d} (renaming date snapshot) mv apart h = Move-tmp w d date mv (apart date refl) ∙ h
Move-Holds idle mv apart h = tt
Move-Holds (entered date snapshot) mv apart h = tt
Move-Holds (writing date snapshot) mv apart h = tt
Move-Holds (updating date) mv apart h = tt
Move-Holds (pruning date cutoff xs) mv apart h = tt
Move-Holds recording mv apart h = tt
Move-Holds placing mv apart h = tt

Apart-Distinct : {w : Writer} {d : Disk} {s : System} (r : Reach w d s) → Apart r → Distinct s
unfolding Apart
Apart-Distinct start a = λ i j x e f. ground arith
Apart-Distinct (later r st) (a, b) = b

-- What may be at a date's path: what was there at first, nothing, or the snapshot of a call that has
-- begun.
abbrev pub Stored :
    {w : Writer} {d : Disk} {s : System} → Reach w d s → String → Option Node → Type 0
Stored {w} {d} r x n =
    (n ≡ find_node (games_path w x) d)
    ⊎ (n ≡ none)
    ⊎ ((snapshot : TodayResponse) × Begun r x snapshot
        × (n ≡ some (file (snapshot_json (prepared x snapshot)))))

record Inv {w : Writer} {d : Disk} {s : System} (r : Reach w d s) : Type 0 where
  held : (i : ℕ) → Holds w s.disk (s.pc i)
  begun :
      (i : ℕ) (x : String) (snapshot : TodayResponse)
      → Carries (s.pc i) x snapshot
      → Begun r x snapshot
  stored : (x : String) → Stored r x (find_node (games_path w x) s.disk)

module _ {w : Writer} {d : Disk} {s : System} (r : Reach w d s) (apart : Apart r)
    (inv : Inv r) where
  Stored-later :
      {t : System} (st : Step w s t) (x : String) (n : Option Node)
      → Stored r x n
      → Stored (later r st) x n
  unfolding Begun
  Stored-later st x n (inl e) = inl e
  Stored-later st x n (inr (inl e)) = inr (inl e)
  Stored-later st x n (inr (inr (snapshot, b, e))) = inr (inr (snapshot, inl b, e))

  Inv-later : {t : System} (st : Step w s t) → Inv (later r st)
  unfolding Begun Started
  Inv-later (turn i {d = d'} {p = p'} mv) = record {
    held = λ j. elim (Bool-cases (i == j)) [
      | inl e ↦ rw e (Move-own w s.disk mv)
      | inr e ↦ rw e (
          Move-Holds (s.pc j) mv (λ x f g. ground (arith, Apart-Distinct r apart i j x g f))
            (inv.held j))
    ];
    begun = λ j x snapshot. elim (Bool-cases (i == j)) [
      | inl e ↦ rw e (λ c. elim (Move-Carries x snapshot mv c) [
        | inl c' ↦ inl (inv.begun i x snapshot c')
        | inr b ↦ inr b
      ])
      | inr e ↦ rw e (λ c. inl (inv.begun j x snapshot c))
    ];
    stored = λ x. elim (Move-snapshot w s.disk x mv (inv.held i)) [
      | inl e ↦ rw e (Stored-later (turn i mv) x (find_node (games_path w x) s.disk) (inv.stored x))
      | inr (inl e) ↦ inr (inl e)
      | inr (inr (snapshot, e, f)) ↦ inr (
          inr (
            snapshot,
            inl (inv.begun i x snapshot (subst (λ q. Carries q x snapshot) (sym e) (refl, refl))),
            f,
          ))
    ];
  }

Inv-start : (w : Writer) (d : Disk) → Inv {w = w} {d = d} {s = at_rest d} start
Inv-start w d = record {
  held = λ i. tt;
  begun = λ i x snapshot c. absurd c;
  stored = λ x. inl refl;
}

Reach-Inv : {w : Writer} {d : Disk} {s : System} (r : Reach w d s) → Apart r → Inv r
unfolding Apart
Reach-Inv {w} {d} start a = Inv-start w d
Reach-Inv (later r st) (a, b) = Inv-later r a (Reach-Inv r a) st

-- If in no state two goroutines are on one date, then in every state a date's file is as it was
-- before the first call, or gone, or the whole snapshot of a call that has begun for that date,
-- whatever fails or is torn on the way.
pub overlap-whole :
    {w : Writer} {d : Disk} {s : System} (r : Reach w d s)
    → Apart r
    → (x : String) → Stored r x (find_node (games_path w x) s.disk)
overlap-whole r apart x = (Reach-Inv r apart).stored x
