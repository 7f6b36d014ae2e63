-- ===== src/Api/Weights.antt =====
-- api/api.go: a request to add keys that does not give every key a weight.
