-- ===== src/Processor/Normalizer.antt =====
-- internal/processor/normalizer.go. Each regular expression is a matcher of a text from its first
-- character on, which gives what it matches and what is left; Go takes the leftmost match, and the
-- expressions are such that the greedy way is the only one. \s, \d and \w are ASCII. Upper and lower
-- case are taken character by character.
pub mod Matching
pub mod Titles
pub mod Locations
pub mod Keywords
pub mod Salary
