-- ===== src/FilePaths.antt =====
-- path/path.c, path/canon.c and path/binding.c: paths as C strings, their comparison, joining,
-- prefix substitution and canonicalisation, and the table of bindings.
pub mod Compare
pub mod Prefix
pub mod Join
pub mod Canonical
pub mod Component
pub mod Binding
pub mod Insert
pub mod Host
pub mod ProcLinks
pub mod Processes
pub mod Detranslate
pub mod Canon
pub mod Translate
pub mod Finality
