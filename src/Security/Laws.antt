-- ===== src/Security/Laws.antt =====
-- internal/security/headers.go: what the origin is told of the client.
