-- ===== src/Dispatch.antt =====
-- src/engine/DispatchController.h: the hill climb over the dispatch width.
--
-- The throughput samples are doubles. Their type, the constant -1 and the test
-- `answers > baseRate_ * kMargin` are parameters; the controller relies on nothing else of them.
pub mod Width
mod Examples
use nitro_server.Base.{
  ℕ, suc, ◌+◌, ◌*◌, ◌/◌, min, max, Bool, true, false, ◌&&◌, not, if◌then◌else◌, ltb, leb, ◌==◌,
  List, [], ◌∷◌,
}

-- `wider` is `dir_ > 0`.
pub record Controller (R : Type 0) : Type 0 where
  pub width : ℕ
  pub probe : ℕ
  pub base_rate : R
  pub probing : Bool
  pub wider : Bool
  pub dwell : ℕ
  pub dwell_target : ℕ

abbrev pub saturated_backlog : ℕ
saturated_backlog = 8

abbrev pub dwell_min : ℕ
dwell_min = 4

abbrev pub dwell_max : ℕ
dwell_max = 50

pub step : ℕ → Bool → ℕ → ℕ
step w wider max_width = if wider then min max_width (w * 2) else max 1 (w / 2)

-- At a bound the direction turns.
pub turn : Bool → ℕ → ℕ → Bool
turn wider width max_width =
    if wider && leb max_width width then false else if not wider && leb width 1 then true else wider

module _ {R : Type 0} (minus_one : R) (beats : R → R → Bool) where
  unfoldable pub reset : Controller R → Controller R
  reset c = record {
    width = 1;
    probe = 1;
    base_rate = minus_one;
    probing = false;
    wider = true;
    dwell = 0;
    dwell_target = dwell_min;
  }

  pub initial : Controller R
  initial = record {
    width = 1;
    probe = 1;
    base_rate = minus_one;
    probing = false;
    wider = true;
    dwell = 0;
    dwell_target = dwell_min;
  }

  -- Settled: observe this width, dwell, then trial a step.
  pub tick_settled : Controller R → R → ℕ → Controller R × ℕ
  tick_settled c answers max_width =
      let waiting = record c { base_rate = answers; dwell = c.dwell + 1 } in
      let dir = turn c.wider c.width max_width in
      let next = step c.width dir max_width in
      let turned = record c { base_rate = answers; dwell = 0; wider = dir } in
      let trial = record c {
        base_rate = answers;
        dwell = 0;
        wider = dir;
        probe = next;
        probing = true;
      } in
      if ltb (c.dwell + 1) c.dwell_target
      then (waiting, c.width)
      else if next == c.width
      then (turned, c.width)
      else (trial, next)

  -- A trial is over: commit and step on, or revert, turn and back off.
  pub tick_probing : Controller R → R → ℕ → Controller R × ℕ
  tick_probing c answers max_width =
      let next = step c.probe c.wider max_width in
      let onward = record c {
        width = c.probe;
        base_rate = answers;
        dwell_target = dwell_min;
        probe = next;
      } in
      let settled = record c {
        width = c.probe;
        base_rate = answers;
        dwell_target = dwell_min;
        probing = false;
      } in
      let reverted = record c {
        probing = false;
        wider = not c.wider;
        dwell_target = min dwell_max (c.dwell_target * 2);
      } in
      if beats answers c.base_rate
      then (if not (next == c.probe) then (onward, next) else (settled, c.probe))
      else (reverted, c.width)

  pub tick : Controller R → R → ℕ → ℕ → Controller R × ℕ
  tick c answers backlog max_width =
      if leb max_width 1
      then (c, 1)
      else if ltb backlog saturated_backlog
      then (reset c, 1)
      else if not c.probing
      then tick_settled c answers max_width
      else tick_probing c answers max_width

  -- The ticks of a run, one (answers, backlog) pair each, and the widths they answer.
  pub ticks : Controller R → ℕ → List (R × ℕ) → Controller R × List ℕ
  ticks c max_width [] = (c, [])
  ticks c max_width ((answers, backlog) ∷ more) =
      let (c', w) = tick c answers backlog max_width in
      let (c'', ws) = ticks c' max_width more in (c'', w ∷ ws)
