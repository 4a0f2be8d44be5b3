-- ===== src/Manifest.antt =====
-- The lab manifest: packages/go/manifest/manifest.go. A time is a number of nanoseconds since Go's
-- zero time (`IsZero` is 0), read in UTC; a nil slice and an empty one are both []; a nil map of
-- tags and an empty one are both []. The TOML and JSON decoders are parameters.
pub mod Validate
pub mod Public
pub mod Normal
pub mod Metrics
pub mod Correct
mod Tests
use lab_kit.Prelude.{
  ℕ, String, Option, none, some, List, [], ◌∷◌, Bool, true, false, ◌&&◌, map, ◌==◌, if◌then◌else◌,
}
use lab_kit.Prelude.Int.{ℤ, pos}
use lab_kit.Prelude.Text.{is_empty}
use lab_kit.Prelude.Dict.{Dict}

-- `type MetricSort string`: any text can be decoded into it.
pub data MetricSort : Type 0 where
  asc desc : MetricSort
  other : String → MetricSort

pub record LabSection : Type 0 where
  pub id : String
  pub name : String
  pub tags : Dict String

pub record SubmitSection : Type 0 where
  pub files : List String
  pub max_size : String

pub record EvalSection : Type 0 where
  pub image : String
  pub timeout : ℤ

pub record QuotaSection : Type 0 where
  pub daily : ℤ
  pub free : List String

pub record MetricSection : Type 0 where
  pub id : String
  pub name : String
  pub sort : MetricSort
  pub unit : String

pub record BoardSection : Type 0 where
  pub rank_by : String
  pub pick : Bool
  pub rank_all : Option Bool

pub record ScheduleSection : Type 0 where
  pub visible : ℕ
  pub opens : ℕ
  pub closes : ℕ

pub record Manifest : Type 0 where
  pub lab : LabSection
  pub submit : SubmitSection
  pub eval : EvalSection
  pub quota : QuotaSection
  pub metrics : List MetricSection
  pub board : BoardSection
  pub schedule : ScheduleSection

-- BoardSection.IsRankAll
unfoldable pub is_rank_all : BoardSection → Bool
is_rank_all b = elim (b.rank_all) [ none ↦ true | some all ↦ all ]

-- time.Time.IsZero
abbrev pub is_zero : ℕ → Bool
is_zero t = t == 0

abbrev pub is_zero_ℤ : ℤ → Bool
is_zero_ℤ (pos n) = n == 0
is_zero_ℤ _ = false

abbrev pub name_metric : MetricSection → MetricSection
name_metric m = if is_empty m.name then record m { name = m.id } else m

abbrev pub first_id : List MetricSection → String → String
first_id [] rank_by = rank_by
first_id (m ∷ _) rank_by = if is_empty rank_by then m.id else rank_by

abbrev pub default_rank_all : Bool → Option Bool → Option Bool
default_rank_all pick (some all) = some all
default_rank_all pick none = if pick then some true else none

-- Manifest.normalize
unfoldable pub normalize : Manifest → Manifest
normalize m = record m {
  submit = record {
    files = m.submit.files;
    max_size = if is_empty m.submit.max_size then "1MB" else m.submit.max_size;
  };
  eval = record {
    image = m.eval.image;
    timeout = if is_zero_ℤ m.eval.timeout then pos 300 else m.eval.timeout;
  };
  metrics = map name_metric m.metrics;
  board = record {
    rank_by = first_id (map name_metric m.metrics) m.board.rank_by;
    pick = m.board.pick;
    rank_all = default_rank_all m.board.pick m.board.rank_all;
  };
  schedule = record {
    visible = if is_zero m.schedule.visible then m.schedule.opens else m.schedule.visible;
    opens = m.schedule.opens;
    closes = m.schedule.closes;
  };
}
