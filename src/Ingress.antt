-- ===== src/Ingress.antt =====
-- ingress/ingress.go, ingress/rule.go: which rule a request goes by.
pub mod Rule
pub mod Matching
pub mod Origin
pub mod Tests
