-- ===== src/Wnet/Nmcli/Host.antt =====
-- What the backend of internal/wnet/nmcli runs on: commands, a clock and the links of sysfs. How a
-- command is run (`os/exec`) is a parameter; `run` and `Run` of nm.go are modelled over it.
use wfm.Prelude.{ℕ, Bool, List, Option, none, some, Text, text}
use wfm.Wnet.Types.{err_other}
use wfm.Wnet.Backend.{Result, ok, err, Action}

pub record Host (W : Type 0) : Type 0 where
  -- The output of a command by its name and arguments, or that it failed.
  pub exec : Text → List Text → W → Option Text × W
  -- The wait of `sleepCtx`: false if the context is done first.
  pub sleep : W → Bool × W
  -- `os.Readlink`
  pub readlink : W → Text → Option Text
  -- How many waits of `Watch` pass before its context is done.
  pub polls : ℕ
  -- How many statuses of `Watch` its client takes: at the send of the next one its context is done.
  pub sends : ℕ

-- The error of a command is none that the callers tell apart.
abbrev pub output : {W : Type 0} → Option Text × W → Result Text × W
output (none, w) = (err err_other, w)
output (some out, w) = (ok out, w)

module _ {W : Type 0} (h : Host W) where
  unfoldable pub run : Text → List Text → Action W Text
  run name args w = output (h.exec name args w)

  unfoldable pub run_nmcli : List Text → Action W Text
  unfolding run
  run_nmcli args = run (text "nmcli") args
