-- ===== src/Tests.antt =====
-- The theorems at concrete inputs, and runs of the definitions.
mod Geohash
mod Hash
mod CountWords
mod Unzip
mod Directory
mod Contents
mod Strings
mod Json
mod Zip
mod Log
mod AhoCorasick
