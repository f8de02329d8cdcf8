-- ===== src/Examples.antt =====
-- Runs of the model on small inputs.
mod PhTree
mod Buddy
mod Sched
mod Cstring
mod Fat
mod Dir
mod Cstdio
mod Heap
mod Fs
mod Gpt
mod Map
mod Paging
