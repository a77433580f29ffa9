-- ===== src/Program/Website.antt =====
-- Http/httpresponsefile.h: the page, line by line; what is not ASCII stands as its bytes in UTF-8.
use my_moduo.Base.{[], ◌∷◌, ◌++◌, concat, Bytes, codes}

abbrev pub website : Bytes
website = concat (
    codes "\n"
    ∷ codes "        <!DOCTYPE html>\n"
    ∷ codes "        <html lang=\"en\">\n"
    ∷ codes "        <head>\n"
    ∷ codes "            <meta charset=\"UTF-8\">\n"
    ∷ codes
        "            <meta name=\"viewport\" content=\"width=device-width, initial-scale=1.0\">\n"
    ∷ codes "            <title>Ymirth - Personal Homepage</title>\n"
    ∷ codes "            <style>\n"
    ∷ codes "                body {\n"
    ∷ codes "                    font-family: Arial, sans-serif;\n"
    ∷ codes "                    margin: 20px;\n"
    ∷ codes "                    padding: 20px;\n"
    ∷ codes "                    text-align: center;\n"
    ∷ codes "                }\n"
    ∷ codes "\n"
    ∷ codes "                header {\n"
    ∷ codes "                    background-color: #333;\n"
    ∷ codes "                    color: white;\n"
    ∷ codes "                    padding: 10px;\n"
    ∷ codes "                }\n"
    ∷ codes "\n"
    ∷ codes "                h1 {\n"
    ∷ codes "                    margin-bottom: 0;\n"
    ∷ codes "                }\n"
    ∷ codes "\n"
    ∷ codes "                nav {\n"
    ∷ codes "                    margin-top: 20px;\n"
    ∷ codes "                }\n"
    ∷ codes "\n"
    ∷ codes "                nav a {\n"
    ∷ codes "                    text-decoration: none;\n"
    ∷ codes "                    color: #333;\n"
    ∷ codes "                    padding: 10px;\n"
    ∷ codes "                    margin: 0 10px;\n"
    ∷ codes "                    border-radius: 5px;\n"
    ∷ codes "                    background-color: #eee;\n"
    ∷ codes "                }\n"
    ∷ codes "\n"
    ∷ codes "                section {\n"
    ∷ codes "                    margin-top: 20px;\n"
    ∷ codes "                    text-align: left;\n"
    ∷ codes "                }\n"
    ∷ codes "\n"
    ∷ codes "                footer {\n"
    ∷ codes "                    margin-top: 20px;\n"
    ∷ codes "                    background-color: #333;\n"
    ∷ codes "                    color: white;\n"
    ∷ codes "                    padding: 10px;\n"
    ∷ codes "                }\n"
    ∷ codes "            </style>\n"
    ∷ codes "        </head>\n"
    ∷ codes "        <body>\n"
    ∷ codes "            <header>\n"
    ∷ codes "                <h1>Ymirth</h1>\n"
    ∷ codes "                <p>Software Developer</p>\n"
    ∷ codes "            </header>\n"
    ∷ codes "\n"
    ∷ codes "            <nav>\n"
    ∷ codes "                <a href=\"#about\">About Me</a>\n"
    ∷ codes "                <a href=\"#skills\">Skills</a>\n"
    ∷ codes "                <a href=\"#projects\">Projects</a>\n"
    ∷ codes "                <a href=\"#contact\">Contact</a>\n"
    ∷ codes "            </nav>\n"
    ∷ codes "\n"
    ∷ codes "            <section id=\"about\">\n"
    ∷ codes "                <h2>About Me</h2>\n"
    ∷ codes "                <p>I am a student major in cs in scut</p>\n"
    ∷ (codes "                <p>I"
        ++ (0xe2
            ∷ 0x80
            ∷ 0x99
            ∷ codes "m currently learning distributed system and database</p>\n"))
    ∷ (codes "                <p>I"
        ++ (0xe2 ∷ 0x80 ∷ 0x99 ∷ codes "m looking to collaborate on backend program</p>\n"))
    ∷ codes "            </section>\n"
    ∷ codes "\n"
    ∷ codes "            <section id=\"skills\">\n"
    ∷ codes "                <h2>Skills</h2>\n"
    ∷ codes "                <ul>\n"
    ∷ codes "                    <li>Cpp, Python, Go</li>\n"
    ∷ codes "                    <li>Linux, Gdb, Network Programing, Concurency Programming</li>\n"
    ∷ codes "                    <li>Mysql, Redis</li>\n"
    ∷ codes "                </ul>\n"
    ∷ codes "            </section>\n"
    ∷ codes "\n"
    ∷ codes "            <section id=\"projects\">\n"
    ∷ codes "                <h2>Projects</h2>\n"
    ∷ codes
        "                <p>Threadpool in cpp14:<a href=\"https://github.com/ymirth/ThreadPool\" target=\"_blank\">/github.com/ymirth/ThreadPool</a></p>\n"
    ∷ codes
        "                <p>HTTP Server Frame Work based on Moduo:<a href=\"https://github.com/ymirth/MyModuo\" target=\"_blank\">/github.com/ymirth/webserver</a></p>\n"
    ∷ codes "            </section>\n"
    ∷ codes "\n"
    ∷ codes "            <section id=\"contact\">\n"
    ∷ codes "                <h2>Contact</h2>\n"
    ∷ codes "                <p>Email: ymirth123@gmail.com</p>\n"
    ∷ codes
        "                <p>GitHub: <a href=\"https://github.com/ymirth\" target=\"_blank\">github.com/ymirth</a></p>\n"
    ∷ codes "            </section>\n"
    ∷ codes "\n"
    ∷ codes "            <footer>\n"
    ∷ codes "                &copy; 2024 Ymirth\n"
    ∷ codes "            </footer>\n"
    ∷ codes "        </body>\n"
    ∷ codes "        </html>\n"
    ∷ codes "    "
    ∷ [])
