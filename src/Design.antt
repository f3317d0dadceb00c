-- ===== src/Design.antt =====
-- chipchamp/design/model.py: what the queries on a module read. Sets are lists in the order in which
-- they are walked; files, lines, ports and parameters are left out where no modelled query reads them.
pub mod Cone
pub mod Domains
pub mod Names
pub mod Slice
mod Examples
use chipchamp.Prelude.{ℕ, Option, List}
use chipchamp.Text.{Text}
use chipchamp.Dict.{Dict}

pub record AlwaysBlock : Type 0 where
  pub kind : Text
  pub sens : List (Text × Text)
  pub clock : Option Text
  pub resets : List Text
  pub lhs : List Text
  pub rhs : List Text
  pub file : Text
  pub line : ℕ

pub record ContinuousAssign : Type 0 where
  pub lhs : Text
  pub rhs : Text
  pub lhs_signals : List Text
  pub rhs_signals : List Text
  pub file : Text
  pub line : ℕ

pub record Instance : Type 0 where
  pub inst_name : Text
  pub module_type : Text
  pub connections : Dict Text
  pub file : Text
  pub line : ℕ

pub record Module : Type 0 where
  pub name : Text
  pub instances : List Instance
  pub always_blocks : List AlwaysBlock
  pub assigns : List ContinuousAssign
