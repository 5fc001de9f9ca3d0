-- ===== src/Buffer/Samples.antt =====
-- A buffer with a given text in it.
use pallette.Base.{ℕ, ◌+◌, ◌-◌, List, ◌++◌, arith}
use pallette.Base.Lists.{length, replicate, take_all}
use pallette.Buffer.{Buffer, pre_prepend}
use pallette.Buffer.Inv.{Holds}

abbrev pub wire : List ℕ → Buffer
wire text = record {
  buffer = replicate pre_prepend 0 ++ text;
  read_index = pre_prepend;
  write_index = pre_prepend + length text;
}

pub wire-Holds : (text : List ℕ) → Holds (wire text) text
wire-Holds text = record {
  valid = record { ordered = omega arith; inside = omega arith };
  roomy = omega arith;
  bytes = take_all (pre_prepend + length text - pre_prepend) text (omega arith);
}
