-- ===== src/Poly.antt =====
-- Polynomials over the field of two elements: a number stands for the polynomial whose
-- coefficients are its binary digits, and `^` is addition.
pub mod Sum
pub mod Product
pub mod Degree
pub mod Montgomery
