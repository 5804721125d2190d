-- ===== src/Gsql/Schema.antt =====
-- The schemas of src/simple-dnsd/backend/gsql.cpp that a database is given where it has no tables.
use simple_dnsd.Base.{◌++◌, Bytes, codes}

-- `kSqliteSchema`
abbrev pub sqlite_schema : Bytes
sqlite_schema =
    codes "\n"
    ++ (codes "CREATE TABLE IF NOT EXISTS domains (\n"
        ++ (codes "  id INTEGER PRIMARY KEY,\n"
            ++ (codes "  name VARCHAR(255) NOT NULL,\n"
                ++ (codes "  master VARCHAR(128) DEFAULT NULL,\n"
                    ++ (codes "  last_check INTEGER DEFAULT NULL,\n"
                        ++ (codes "  type VARCHAR(8) NOT NULL,\n"
                            ++ (codes "  notified_serial INTEGER DEFAULT NULL,\n"
                                ++ (codes "  account VARCHAR(40) DEFAULT NULL,\n"
                                    ++ (codes "  options TEXT DEFAULT NULL,\n"
                                        ++ (codes "  catalog VARCHAR(255) DEFAULT NULL\n"
                                            ++ (codes ");\n"
                                                ++ (codes
                                                      "CREATE UNIQUE INDEX IF NOT EXISTS name_index ON domains(name);\n"
                                                    ++ (codes
                                                          "CREATE TABLE IF NOT EXISTS records (\n"
                                                        ++ (codes "  id INTEGER PRIMARY KEY,\n"
                                                            ++ (codes
                                                            "  domain_id INTEGER DEFAULT NULL,\n"
                                                            ++ (codes
                                                            "  name VARCHAR(255) DEFAULT NULL,\n"
                                                            ++ (codes
                                                            "  type VARCHAR(10) DEFAULT NULL,\n"
                                                            ++ (codes
                                                            "  content VARCHAR(65535) DEFAULT NULL,\n"
                                                            ++ (codes
                                                            "  ttl INTEGER DEFAULT NULL,\n"
                                                            ++ (codes
                                                            "  prio INTEGER DEFAULT NULL,\n"
                                                            ++ (codes
                                                            "  disabled BOOLEAN DEFAULT 0,\n"
                                                            ++ (codes "  ordername VARCHAR(255),\n"
                                                            ++ (codes "  auth INTEGER DEFAULT 1,\n"
                                                            ++ (codes
                                                            "  FOREIGN KEY(domain_id) REFERENCES domains(id) ON DELETE CASCADE\n"
                                                            ++ (codes ");\n"
                                                            ++ (codes
                                                            "CREATE INDEX IF NOT EXISTS rec_name_index ON records(name);\n"
                                                            ++ (codes
                                                            "CREATE INDEX IF NOT EXISTS nametype_index ON records(name,type);\n"
                                                            ++ (codes
                                                            "CREATE INDEX IF NOT EXISTS domain_id ON records(domain_id);\n"
                                                            ++ (codes
                                                            "CREATE TABLE IF NOT EXISTS comments (\n"
                                                            ++ (codes "  id INTEGER PRIMARY KEY,\n"
                                                            ++ (codes
                                                            "  domain_id INTEGER NOT NULL,\n"
                                                            ++ (codes
                                                            "  name VARCHAR(255) NOT NULL,\n"
                                                            ++ (codes
                                                            "  type VARCHAR(10) NOT NULL,\n"
                                                            ++ (codes
                                                            "  modified_at INT NOT NULL,\n"
                                                            ++ (codes
                                                            "  account VARCHAR(40) DEFAULT NULL,\n"
                                                            ++ (codes
                                                            "  comment VARCHAR(65535) NOT NULL\n"
                                                            ++ (codes ");\n"
                                                            ++ (codes
                                                            "CREATE TABLE IF NOT EXISTS domainmetadata (\n"
                                                            ++ (codes "  id INTEGER PRIMARY KEY,\n"
                                                            ++ (codes
                                                            "  domain_id INTEGER NOT NULL,\n"
                                                            ++ (codes "  kind VARCHAR(32),\n"
                                                            ++ (codes "  content TEXT\n"
                                                            ++ (codes ");\n"
                                                            ++ (codes
                                                            "CREATE TABLE IF NOT EXISTS cryptokeys (\n"
                                                            ++ (codes "  id INTEGER PRIMARY KEY,\n"
                                                            ++ (codes
                                                            "  domain_id INTEGER NOT NULL,\n"
                                                            ++ (codes "  flags INT NOT NULL,\n"
                                                            ++ (codes "  active BOOL,\n"
                                                            ++ (codes
                                                            "  published BOOL DEFAULT 1,\n"
                                                            ++ (codes "  content TEXT\n"
                                                            ++ (codes ");\n"
                                                            ++ (codes
                                                            "CREATE TABLE IF NOT EXISTS tsigkeys (\n"
                                                            ++ (codes "  id INTEGER PRIMARY KEY,\n"
                                                            ++ (codes "  name VARCHAR(255),\n"
                                                            ++ (codes "  algorithm VARCHAR(50),\n"
                                                            ++ (codes "  secret VARCHAR(255)\n"
                                                            ++ (codes ");\n"))))))))))))))))))))))))
                                                            )))))))))))))))))))))))))))))))))

-- `kPgsqlSchema`
abbrev pub pgsql_schema : Bytes
pgsql_schema =
    codes "\n"
    ++ (codes "CREATE TABLE IF NOT EXISTS domains (\n"
        ++ (codes "  id SERIAL PRIMARY KEY,\n"
            ++ (codes "  name VARCHAR(255) NOT NULL,\n"
                ++ (codes "  master VARCHAR(128) DEFAULT NULL,\n"
                    ++ (codes "  last_check INT DEFAULT NULL,\n"
                        ++ (codes "  type VARCHAR(8) NOT NULL,\n"
                            ++ (codes "  notified_serial INT DEFAULT NULL,\n"
                                ++ (codes "  account VARCHAR(40) DEFAULT NULL\n"
                                    ++ (codes ");\n"
                                        ++ (codes "CREATE TABLE IF NOT EXISTS records (\n"
                                            ++ (codes "  id SERIAL PRIMARY KEY,\n"
                                                ++ (codes "  domain_id INT DEFAULT NULL,\n"
                                                    ++ (codes "  name VARCHAR(255) DEFAULT NULL,\n"
                                                        ++ (codes
                                                            "  type VARCHAR(10) DEFAULT NULL,\n"
                                                            ++ (codes
                                                            "  content VARCHAR(65535) DEFAULT NULL,\n"
                                                            ++ (codes "  ttl INT DEFAULT NULL,\n"
                                                            ++ (codes "  prio INT DEFAULT NULL,\n"
                                                            ++ (codes
                                                            "  disabled BOOL DEFAULT 'f',\n"
                                                            ++ (codes "  ordername VARCHAR(255),\n"
                                                            ++ (codes "  auth BOOL DEFAULT 't'\n"
                                                            ++ (codes ");\n"
                                                            ++ (codes
                                                            "CREATE TABLE IF NOT EXISTS comments (\n"
                                                            ++ (codes "  id SERIAL PRIMARY KEY,\n"
                                                            ++ (codes "  domain_id INT NOT NULL,\n"
                                                            ++ (codes
                                                            "  name VARCHAR(255) NOT NULL,\n"
                                                            ++ (codes
                                                            "  type VARCHAR(10) NOT NULL,\n"
                                                            ++ (codes
                                                            "  modified_at INT NOT NULL,\n"
                                                            ++ (codes
                                                            "  account VARCHAR(40) DEFAULT NULL,\n"
                                                            ++ (codes
                                                            "  comment VARCHAR(65535) NOT NULL\n"
                                                            ++ (codes ");\n"
                                                            ++ (codes
                                                            "CREATE TABLE IF NOT EXISTS domainmetadata (\n"
                                                            ++ (codes "  id SERIAL PRIMARY KEY,\n"
                                                            ++ (codes "  domain_id INT NOT NULL,\n"
                                                            ++ (codes "  kind VARCHAR(32),\n"
                                                            ++ (codes "  content TEXT\n"
                                                            ++ (codes ");\n"
                                                            ++ (codes
                                                            "CREATE TABLE IF NOT EXISTS cryptokeys (\n"
                                                            ++ (codes "  id SERIAL PRIMARY KEY,\n"
                                                            ++ (codes "  domain_id INT NOT NULL,\n"
                                                            ++ (codes "  flags INT NOT NULL,\n"
                                                            ++ (codes "  active BOOL,\n"
                                                            ++ (codes
                                                            "  published BOOL DEFAULT 't',\n"
                                                            ++ (codes "  content TEXT\n"
                                                            ++ (codes ");\n"
                                                            ++ (codes
                                                            "CREATE TABLE IF NOT EXISTS tsigkeys (\n"
                                                            ++ (codes "  id SERIAL PRIMARY KEY,\n"
                                                            ++ (codes "  name VARCHAR(255),\n"
                                                            ++ (codes "  algorithm VARCHAR(50),\n"
                                                            ++ (codes "  secret VARCHAR(255)\n"
                                                            ++ (codes ");\n"))))))))))))))))))))))))
                                                            ))))))))))))))))))))))))))

-- `kMysqlSchema`
abbrev pub mysql_schema : Bytes
mysql_schema =
    codes "\n"
    ++ (codes "CREATE TABLE IF NOT EXISTS domains (\n"
        ++ (codes "  id INT AUTO_INCREMENT PRIMARY KEY,\n"
            ++ (codes "  name VARCHAR(255) NOT NULL,\n"
                ++ (codes "  master VARCHAR(128) DEFAULT NULL,\n"
                    ++ (codes "  last_check INT DEFAULT NULL,\n"
                        ++ (codes "  type VARCHAR(8) NOT NULL,\n"
                            ++ (codes "  notified_serial INT DEFAULT NULL,\n"
                                ++ (codes "  account VARCHAR(40) DEFAULT NULL\n"
                                    ++ (codes ");\n"
                                        ++ (codes "CREATE TABLE IF NOT EXISTS records (\n"
                                            ++ (codes "  id INT AUTO_INCREMENT PRIMARY KEY,\n"
                                                ++ (codes "  domain_id INT DEFAULT NULL,\n"
                                                    ++ (codes "  name VARCHAR(255) DEFAULT NULL,\n"
                                                        ++ (codes
                                                            "  type VARCHAR(10) DEFAULT NULL,\n"
                                                            ++ (codes
                                                            "  content TEXT DEFAULT NULL,\n"
                                                            ++ (codes "  ttl INT DEFAULT NULL,\n"
                                                            ++ (codes "  prio INT DEFAULT NULL,\n"
                                                            ++ (codes
                                                            "  disabled TINYINT(1) DEFAULT 0,\n"
                                                            ++ (codes "  ordername VARCHAR(255),\n"
                                                            ++ (codes
                                                            "  auth TINYINT(1) DEFAULT 1\n"
                                                            ++ (codes ");\n"
                                                            ++ (codes
                                                            "CREATE TABLE IF NOT EXISTS comments (\n"
                                                            ++ (codes
                                                            "  id INT AUTO_INCREMENT PRIMARY KEY,\n"
                                                            ++ (codes "  domain_id INT NOT NULL,\n"
                                                            ++ (codes
                                                            "  name VARCHAR(255) NOT NULL,\n"
                                                            ++ (codes
                                                            "  type VARCHAR(10) NOT NULL,\n"
                                                            ++ (codes
                                                            "  modified_at INT NOT NULL,\n"
                                                            ++ (codes
                                                            "  account VARCHAR(40) DEFAULT NULL,\n"
                                                            ++ (codes "  comment TEXT NOT NULL\n"
                                                            ++ (codes ");\n"
                                                            ++ (codes
                                                            "CREATE TABLE IF NOT EXISTS domainmetadata (\n"
                                                            ++ (codes
                                                            "  id INT AUTO_INCREMENT PRIMARY KEY,\n"
                                                            ++ (codes "  domain_id INT NOT NULL,\n"
                                                            ++ (codes "  kind VARCHAR(32),\n"
                                                            ++ (codes "  content TEXT\n"
                                                            ++ (codes ");\n"
                                                            ++ (codes
                                                            "CREATE TABLE IF NOT EXISTS cryptokeys (\n"
                                                            ++ (codes
                                                            "  id INT AUTO_INCREMENT PRIMARY KEY,\n"
                                                            ++ (codes "  domain_id INT NOT NULL,\n"
                                                            ++ (codes "  flags INT NOT NULL,\n"
                                                            ++ (codes "  active BOOL,\n"
                                                            ++ (codes
                                                            "  published BOOL DEFAULT 1,\n"
                                                            ++ (codes "  content TEXT\n"
                                                            ++ (codes ");\n"
                                                            ++ (codes
                                                            "CREATE TABLE IF NOT EXISTS tsigkeys (\n"
                                                            ++ (codes
                                                            "  id INT AUTO_INCREMENT PRIMARY KEY,\n"
                                                            ++ (codes "  name VARCHAR(255),\n"
                                                            ++ (codes "  algorithm VARCHAR(50),\n"
                                                            ++ (codes "  secret VARCHAR(255)\n"
                                                            ++ (codes ");\n"))))))))))))))))))))))))
                                                            ))))))))))))))))))))))))))
