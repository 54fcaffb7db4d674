-- ===== src/Command/Saves.antt =====
-- cmd/minirag/eval.go: which baseline runEvaluation writes, and when.
use dong_rag.Search.Dispatch.{SearchMode}
use dong_rag.Evaluation.Run.{Case}
use dong_rag.Evaluation.Dataset.{load_dataset}
use dong_rag.Base.{
  ◌≡◌, refl, ◌⊎◌, inl, inr, Bool, true, false, ◌&&◌, ◌||◌, not, Option, none, some, List, arith,
  Bool-cases, GoError, Result, ok, err, and_then, codes, text_eq, is_empty,
}
use dong_rag.Evaluation.Reports.{Numbers, Report}
use dong_rag.Evaluation.Gate.{BaselineFile, merge_baseline, Mismatch, validate_baseline}
use dong_rag.Command.{
  run_modes, encoded, current_baseline, merged_with, save_then_end, update_or_end, unless_mismatch,
  with_baseline, finish_evaluation, or_fails, with_modes, unless_fault, is_rag, with_dataset,
  with_flags, run_evaluation,
}
use dong_rag.Command.Parts.{
  EvalFlags, Desk, EvalError, ComparisonReport, Ran, evaluation_modes, load_baseline,
}

module _ {N : Numbers} (D : Desk N) (f : EvalFlags N.Float) where
  -- Where a baseline that is written comes from: there was no file, or one that was loaded and
  -- fits.
  abbrev pub ComesFrom : List (Report N.Float) → BaselineFile N.Float → Type 0
  ComesFrom reports b =
      ((D.is_missing f.baseline_path ≡ true)
        × (e : GoError) × (load_baseline D.read_baseline f.baseline_path ≡ err e)
        × (b ≡ current_baseline D f reports))
      ⊎ ((old : BaselineFile N.Float) × (load_baseline D.read_baseline f.baseline_path ≡ ok old)
          × (validate_baseline old f.dataset_path f.pipeline f.top_k f.candidate_k ≡ none)
          × (b ≡ merge_baseline N D.visit old (current_baseline D f reports)))

  encoded-saved :
      (fault : Option GoError) (e : Option EvalError) (c : ComparisonReport N.Float)
      (saved : Option (BaselineFile N.Float))
      → (encoded D f fault e c saved).saved ≡ saved
  encoded-saved none e c saved = refl
  encoded-saved (some x) e c saved = refl

  written-saved :
      (fault : Option GoError) (b' : BaselineFile N.Float) (failure : Bool)
      (c : ComparisonReport N.Float) {b : BaselineFile N.Float}
      → (save_then_end D f fault b' failure c).saved ≡ some b
      → b ≡ b'
  written-saved none b' failure c h = cc (encoded-saved D.encode_fault _ _ (some b'))
  written-saved (some x) b' failure c h = cc

  update_or_end-saved :
      (existing : Option (BaselineFile N.Float)) (failure : Bool) (c : ComparisonReport N.Float)
      {b : BaselineFile N.Float}
      → (update_or_end D f existing failure c).saved ≡ some b
      → (f.update_baseline ≡ true) × (b ≡ merged_with D f existing (current_baseline D f c.reports))
  unfolding update_or_end
  update_or_end-saved existing failure c h = elim (Bool-cases f.update_baseline) [
    | inl y ↦ (y, written-saved D.write_fault _ failure c (rw y at h))
    | inr n ↦ let h' = rw n at h in cc (encoded-saved D.encode_fault _ _ none)
  ]

  unless_mismatch-saved :
      (m : Option Mismatch) (old : BaselineFile N.Float) (c : ComparisonReport N.Float)
      {b : BaselineFile N.Float}
      → (unless_mismatch D f m old c).saved ≡ some b
      → (m ≡ none)
        × (f.update_baseline ≡ true)
        × (b ≡ merge_baseline N D.visit old (current_baseline D f c.reports))
  unless_mismatch-saved (some m) old c h = cc
  unless_mismatch-saved none old c h =
      let (y, e) = update_or_end-saved (some old) _ _ h in (refl, y, e)

  with_baseline-saved :
      (loaded : Result (BaselineFile N.Float)) (c : ComparisonReport N.Float)
      {b : BaselineFile N.Float}
      → load_baseline D.read_baseline f.baseline_path ≡ loaded
      → (with_baseline D f loaded c).saved ≡ some b
      → (f.update_baseline ≡ true) × ComesFrom c.reports b
  unfolding with_baseline
  with_baseline-saved (ok old) c l h =
      let (m, y, e) = unless_mismatch-saved _ old c h in (y, inr (old, l, m, e))
  with_baseline-saved (err x) c l h =
      elim (Bool-cases (not f.update_baseline || not (D.is_missing f.baseline_path))) [
        | inl y ↦ let h' = rw y at h in cc
        | inr n ↦
            let (u, e) = update_or_end-saved none false c (rw n at h) in
            (u, inl (ground (arith, n), x, l, e))
      ]

  finish_evaluation-saved :
      (reports : List (Report N.Float)) {b : BaselineFile N.Float}
      → (finish_evaluation D f reports).saved ≡ some b
      → (f.update_baseline ≡ true) × ComesFrom reports b
  unfolding finish_evaluation
  finish_evaluation-saved reports h = elim (Bool-cases (is_empty f.baseline_path)) [
    | inl y ↦ let h' = rw y at h in cc (encoded-saved D.encode_fault none _ none)
    | inr n ↦ with_baseline-saved (load_baseline D.read_baseline f.baseline_path) _ refl (rw n at h)
  ]

  or_fails-saved :
      (ran : Option (Result (List (Report N.Float)))) {r : Ran N.Float} {b : BaselineFile N.Float}
      → or_fails D f ran ≡ some r
      → r.saved ≡ some b
      → (reports : List (Report N.Float)) × (ran ≡ some (ok reports))
        × ((finish_evaluation D f reports).saved ≡ some b)
  or_fails-saved none h k = cc
  or_fails-saved (some (err e)) h k = cc
  or_fails-saved (some (ok reports)) h k = (reports, refl, cc)

  with_modes-saved :
      (cs : List Case) (modes : Option (List SearchMode)) {r : Ran N.Float}
      {b : BaselineFile N.Float}
      → with_modes D f cs modes ≡ some r
      → r.saved ≡ some b
      → (ms : List SearchMode) × (modes ≡ some ms)
        × (reports : List (Report N.Float)) × (run_modes D f cs ms ≡ some (ok reports))
        × ((finish_evaluation D f reports).saved ≡ some b)
  with_modes-saved cs none h k = cc
  with_modes-saved cs (some ms) h k =
      let (reports, e, s) = or_fails-saved (run_modes D f cs ms) h k in (ms, refl, reports, e, s)

  unless_fault-saved :
      (fault : Option GoError) (rest : Option (Ran N.Float)) {r : Ran N.Float}
      {b : BaselineFile N.Float}
      → unless_fault D f fault rest ≡ some r
      → r.saved ≡ some b
      → rest ≡ some r
  unless_fault-saved none rest h k = h
  unless_fault-saved (some e) rest h k = cc

  -- The reports of a run over a dataset that was loaded and fits the pipeline.
  abbrev pub AreRun : Result (List Case) → List (Report N.Float) → Type 0
  AreRun dataset reports =
      (cs : List Case) × (dataset ≡ ok cs)
      × (ms : List SearchMode) × (evaluation_modes f.mode_name ≡ some ms)
      × (run_modes D f cs ms ≡ some (ok reports))

  with_dataset-saved :
      (dataset : Result (List Case)) {r : Ran N.Float} {b : BaselineFile N.Float}
      → with_dataset D f dataset ≡ some r
      → r.saved ≡ some b
      → (reports : List (Report N.Float)) × AreRun dataset reports
        × ((finish_evaluation D f reports).saved ≡ some b)
  unfolding with_dataset
  with_dataset-saved (err e) h k = cc
  with_dataset-saved (ok cs) h k =
      elim (Bool-cases (not (text_eq f.pipeline (codes "retrieval")) && not (is_rag D f))) [
        | inl bad ↦ let h' = rw bad at h in cc
        | inr good ↦
            let ran =
              unless_fault-saved D.migrate_fault _
                (unless_fault-saved D.store_fault _
                  (unless_fault-saved _ _ (unless_fault-saved _ _ (rw good at h) k) k) k)
                k in
            let (ms, m, reports, e, s) = with_modes-saved cs (evaluation_modes f.mode_name) ran k in
            (reports, (cs, refl, ms, m, e), s)
      ]

-- What is known of a baseline that the command has written.
abbrev pub Saves : {N : Numbers} → Desk N → BaselineFile N.Float → Type 0
Saves {N} D b =
    (f : EvalFlags N.Float) × (D.flags ≡ ok f)
    × (f.update_baseline ≡ true)
    × (reports : List (Report N.Float)) × AreRun D f
        (and_then (D.read_dataset f.dataset_path) load_dataset) reports
    × ComesFrom D f reports b

with_flags-Saves :
    {N : Numbers} (D : Desk N) (flags : Result (EvalFlags N.Float)) {r : Ran N.Float}
    {b : BaselineFile N.Float}
    → D.flags ≡ flags
    → with_flags D flags ≡ some r
    → r.saved ≡ some b
    → Saves D b
with_flags-Saves D (err e) g h k = cc
with_flags-Saves D (ok f) g h k =
    let (reports, run, s) = with_dataset-saved D f _ h k in
    let (u, c) = finish_evaluation-saved D f reports s in (f, g, u, reports, run, c)

-- A baseline is written only under the flag that asks for it, from the reports of a run over the
-- dataset in every mode that was asked for, and it is the compacted reports where no file was
-- there, and otherwise the merge of these with a baseline that was loaded and whose settings fit: a
-- file that is there and cannot be read, has no reports or belongs to other settings is never
-- overwritten.
pub run_evaluation-Saves :
    {N : Numbers} (D : Desk N) {r : Ran N.Float} {b : BaselineFile N.Float}
    → run_evaluation D ≡ some r
    → r.saved ≡ some b
    → Saves D b
unfolding run_evaluation
run_evaluation-Saves D h k = with_flags-Saves D D.flags refl h k
