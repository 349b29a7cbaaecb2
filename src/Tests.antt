-- ===== src/Tests.antt =====
-- The models on concrete inputs.
mod SmaRuns
mod CacheRuns
mod CacheWitnesses
mod SmaWitnesses
mod IteratorWitnesses
mod ValueWitnesses
mod SystemWitnesses
mod MmapWitnesses
