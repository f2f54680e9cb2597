-- ===== src/Hack/Model.antt =====
-- `Instance` of internal/frontend/hack/hack.go, by its anonymous structs. An `int` is an integer, a
-- `uint64` a number.
use tinkerbell_hegel.Prelude.{ℕ, Bool, List}
use tinkerbell_hegel.Strings.{Str}
use tinkerbell_hegel.Strconv.{ℤ}

pub record Partition : Type 0 where
  pub label : Str
  pub number : ℤ
  pub size : ℕ

pub record Disk : Type 0 where
  pub device : Str
  pub partitions : List Partition
  pub wipe_table : Bool

pub record Create : Type 0 where
  pub options : List Str

pub record Mount : Type 0 where
  pub create : Create
  pub device : Str
  pub format : Str
  pub point : Str

pub record Filesystem : Type 0 where
  pub mount : Mount

pub record Storage : Type 0 where
  pub disks : List Disk
  pub filesystems : List Filesystem

pub record InstanceData : Type 0 where
  pub storage : Storage

pub record Metadata : Type 0 where
  pub instance_data : InstanceData

pub record Instance : Type 0 where
  pub metadata : Metadata
