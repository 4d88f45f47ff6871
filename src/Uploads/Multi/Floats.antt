-- ===== src/Uploads/Multi/Floats.antt =====
-- What the progress computations use of Go's floating point.
use file_upload.Prelude.Int.{ℤ}

-- A floating-point type: conversion from an integer, the two operations, and conversion to int.
pub record Float : Type 1 where
  pub Number : Type 0
  pub of_int : ℤ → Number
  pub mul : Number → Number → Number
  pub div : Number → Number → Number
  pub truncate : Number → ℤ
