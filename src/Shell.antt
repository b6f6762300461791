-- ===== src/Shell.antt =====
-- project1, the shell `timetrash`: commands and how they are built from tokens, how they run, and the
-- graph that runs them in parallel.
mod Command
mod Graph
mod Execute
mod Parse
mod Read
