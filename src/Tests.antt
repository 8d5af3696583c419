-- ===== src/Tests.antt =====
-- Tests of the definitions on concrete inputs, and the theorems at inputs that meet their hypotheses.
mod ConfTests
mod LineTests
mod TextTests
mod OutputTests
mod ExpandTests
mod FilterTests
mod InfoTests
mod CopyTests
mod OptionTests
mod MapTests
mod NamedTests
mod ThreadTests
mod MainTests
